-- ===== src/Notifications/Preferences/Choice.antt =====
-- What is set is what is enforced, and what the page shows.
use text.Mathlib.Text.{◌==◌ as str_eq}
use finguard.Base.{
  ◌≡◌, refl, inl, inr, sym, ◌∙◌, Bool, true, false, not, ◌&&◌, ◌||◌, List, [], ◌∷◌, ◌++◌, String,
  arith, Bool-cases, if_cases, if◌then◌else◌,
}
use finguard.Base.Text.{lower, str_eq→eq}
use finguard.Notifications.{EmailCategory, EmailOptOut, same_category, suppressible, is_opted_out}
use finguard.Notifications.Preferences.{
  opt_out_row, insert_opt_out, delete_opt_out, set_opt_out, list_opt_outs, mem_category,
  preferences_of, ordered_suppressible, only_suppressible, get_preferences,
}

-- Whether two pairs of an address and a category name the same opt-out.
abbrev pub same_choice : String → EmailCategory → String → EmailCategory → Bool
same_choice email category email' category' =
    str_eq (lower email) (lower email') && same_category category category'

-- Whether a row is the opt-out of the pair.
abbrev carries : String → EmailCategory → EmailOptOut → Bool
carries email category o = str_eq o.email (lower email) && same_category o.category category

same_category→eq : (a b : EmailCategory) → same_category a b ≡ true → a ≡ b
same_category→eq a b h = ground arith

same_category_refl : (a : EmailCategory) → same_category a a ≡ true
same_category_refl a = ground arith

or-swap : (a b c : Bool) → (a || (b || c)) ≡ (b || (a || c))
or-swap a b c = ground arith

or-drop : (s x r : Bool) → x ≡ s → (not s && (x || r)) ≡ (not s && r)
or-drop s x r h = ground arith

or-kept :
    (s x r d : Bool) → (s ≡ true → x ≡ false) → d ≡ (not s && r) → (x || d) ≡ (not s && (x || r))
or-kept true x r d h e = rw (h refl, e) refl
or-kept false x r d h e = rw e refl

-- A row of one pair is a row of the other exactly if they are the same.
carries-other :
    (email : String) (category : EmailCategory) (email' : String) (category' : EmailCategory)
    (o : EmailOptOut)
    → carries email category o ≡ true
    → carries email' category' o ≡ same_choice email category email' category'
carries-other email category email' category' o h =
    let address = str_eq→eq o.email (lower email) (ground (arith, h)) in
    let kind = same_category→eq o.category category (ground (arith, h)) in rw (address, kind) refl

append-lookup :
    (email : String) (category : EmailCategory) (email' : String) (category' : EmailCategory)
    (os : List EmailOptOut)
    → is_opted_out email' category' (os ++ opt_out_row email category ∷ [])
      ≡ (same_choice email category email' category' || is_opted_out email' category' os)
unfolding is_opted_out
append-lookup email category email' category' [] = refl
append-lookup email category email' category' (o ∷ os) =
    rw (append-lookup email category email' category' os)
      (or-swap (carries email' category' o) (same_choice email category email' category') _)

present-lookup :
    (email : String) (category : EmailCategory) (email' : String) (category' : EmailCategory)
    (os : List EmailOptOut)
    → is_opted_out email category os ≡ true
    → is_opted_out email' category' os
      ≡ (same_choice email category email' category' || is_opted_out email' category' os)
unfolding is_opted_out
present-lookup email category email' category' [] h = ground (arith, h)
present-lookup email category email' category' (o ∷ os) h =
    elim (Bool-cases (carries email category o)) [
      | inl c ↦ ground (arith, carries-other email category email' category' o c)
      | inr c ↦ ground (arith, h, c, present-lookup email category email' category' os (rw c at h))
    ]

same_choice-carries :
    (email : String) (category : EmailCategory) (email' : String) (category' : EmailCategory)
    (o : EmailOptOut)
    → same_choice email category email' category' ≡ true
    → carries email' category' o ≡ carries email category o
same_choice-carries email category email' category' o h =
    let address = str_eq→eq (lower email) (lower email') (ground (arith, h)) in
    let kind = same_category→eq category category' (ground (arith, h)) in rw (address, kind) refl

insert_opt_out-lookup :
    (email : String) (category : EmailCategory) (email' : String) (category' : EmailCategory)
    (os : List EmailOptOut)
    → is_opted_out email' category' (insert_opt_out email category os)
      ≡ (same_choice email category email' category' || is_opted_out email' category' os)
unfolding insert_opt_out
insert_opt_out-lookup email category email' category' os =
    if_cases
      (λ (l : List EmailOptOut).
        is_opted_out email' category' l
        ≡ (same_choice email category email' category' || is_opted_out email' category' os))
      (is_opted_out email category os) _ _
      (λ h. present-lookup email category email' category' os h)
      (λ h. append-lookup email category email' category' os)

or-if : (s r : Bool) → (s || r) ≡ (if s then true else r)
or-if s r = ground arith

and-if : (s r : Bool) → (not s && r) ≡ (if s then false else r)
and-if s r = ground arith

delete_opt_out-lookup :
    (email : String) (category : EmailCategory) (email' : String) (category' : EmailCategory)
    (os : List EmailOptOut)
    → is_opted_out email' category' (delete_opt_out email category os)
      ≡ (not (same_choice email category email' category') && is_opted_out email' category' os)
unfolding is_opted_out delete_opt_out
delete_opt_out-lookup email category email' category' [] = ground arith
delete_opt_out-lookup email category email' category' (o ∷ os) =
    let s = same_choice email category email' category' in
    let x = carries email' category' o in
    let rest = delete_opt_out-lookup email category email' category' os in
    if_cases
      (λ (l : List EmailOptOut).
        is_opted_out email' category' l ≡ (not s && (x || is_opted_out email' category' os)))
      (carries email category o) _ _
      (λ c. rest ∙ sym (or-drop s x _ (carries-other email category email' category' o c)))
      (λ c. or-kept s x _ _ (λ e. same_choice-carries email category email' category' o e ∙ c) rest)

-- After a recipient has opted out of a suppressible category, or back into it, exactly the
-- emails of that category to that recipient are suppressed, or are not; for every other
-- recipient and category nothing changes. A category that is not suppressible stays as it is.
set_opt_out-lookup :
    (email : String) (category : EmailCategory) (opted_out : Bool) (email' : String)
    (category' : EmailCategory) (os : List EmailOptOut)
    → is_opted_out email' category' (set_opt_out email category opted_out os) ≡ (
        if suppressible category && same_choice email category email' category'
        then opted_out
        else is_opted_out email' category' os)
unfolding set_opt_out
set_opt_out-lookup email category opted_out email' category' os =
    let s = same_choice email category email' category' in
    let r = is_opted_out email' category' os in
    elim (Bool-cases (suppressible category)) [
      | inr h ↦ rw h refl
      | inl h ↦ rw h (elim (Bool-cases opted_out) [
        | inl on ↦ rw on (insert_opt_out-lookup email category email' category' os ∙ or-if s r)
        | inr off ↦ rw off (delete_opt_out-lookup email category email' category' os ∙ and-if s r)
      ])
    ]

list_opt_outs-eq :
    (email : String) (category : EmailCategory) (os : List EmailOptOut)
    → mem_category category (list_opt_outs email os) ≡ is_opted_out email category os
unfolding list_opt_outs mem_category is_opted_out
list_opt_outs-eq email category [] = refl
list_opt_outs-eq email category (o ∷ os) =
    let rest = list_opt_outs-eq email category os in
    elim (Bool-cases (str_eq o.email (lower email))) [
      | inl h ↦ rw (h, rest) refl
      | inr h ↦ rw (h, rest) refl
    ]

-- The preferences page lists approvals and reminders, each as opted out exactly if emails of
-- that category to the user are suppressed.
get_preferences-eq :
    (email : String) (os : List EmailOptOut)
    → get_preferences email os
      ≡ record {
        category = EmailCategory.approval;
        opted_out = is_opted_out email EmailCategory.approval os;
      }
        ∷ record {
          category = EmailCategory.reminder;
          opted_out = is_opted_out email EmailCategory.reminder os;
        }
        ∷ []
unfolding get_preferences preferences_of ordered_suppressible only_suppressible
get_preferences-eq email os =
    rw
      (
        list_opt_outs-eq email EmailCategory.approval os,
        list_opt_outs-eq email EmailCategory.reminder os,
      )
      refl
