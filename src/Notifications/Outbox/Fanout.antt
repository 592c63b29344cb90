-- ===== src/Notifications/Outbox/Fanout.antt =====
-- `notify_reviewers` reaches those who may review, and nobody else.
use mathlib.Core.Path.{subst}
use mathlib.Core.List.{Mem}
use finguard.Base.{
  ℕ, ◌+◌, ◌≡◌, inl, inr, refl, sym, ◌∙◌, Bool, true, false, ◌&&◌, Option, some, List, [], ◌∷◌,
  String, arith, All, All-map, Bool-cases,
}
use finguard.Base.Table.{select-All, All-Mem}
use finguard.Identity.{User, list_active_by_roles}
use finguard.Identity.Permissions.{Permission, roles_with_permission, has_permission}
use finguard.Identity.Permissions.Policy.{roles_with_permission-eq}
use finguard.Notifications.{EmailContext, EmailKey, EmailOutbox, Mail, enqueue_email}
use finguard.Notifications.Reviewers.{
  review_email, is_excluded, count_if, notify_each, notify_reviewers,
}
use finguard.Notifications.Outbox.{
  Extends, unchanged, extends-again, extends-imp, IsRowOf, enqueue_email-Grows,
}

-- A row of the outbox for one of `users` that `Q` holds of, other than the excluded one.
pub record IsReviewMail (key : ℕ → EmailKey) (exclude : Option ℕ) (Q : User → Type 0)
    (e : EmailOutbox) : Type 0 where
  pub user : User
  pub eligible : Q user
  pub not_excluded : is_excluded exclude user.id ≡ false
  pub address : e.to_email ≡ user.email
  pub keyed : e.idempotency_key ≡ key user.id

count_if-add : (b : Bool) (n : ℕ) → count_if b n ≡ n + count_if b 0
count_if-add b n = ground arith

some_inj : {a b : String} → some a ≡ some b → a ≡ b
some_inj {a} {b} h = cc

module _ (key : ℕ → EmailKey) (context : EmailContext) (exclude : Option ℕ)
    (Q : User → Type 0) where
  abbrev IsMail : EmailOutbox → Type 0
  IsMail = IsReviewMail key exclude Q

  abbrev Step : ℕ → Mail → ℕ × Mail → Type 0
  Step start mail r = (k : ℕ) × (r.0 ≡ start + k) × Extends IsMail k mail r.1

  notify_one :
      (user : User) (start : ℕ) (mail : Mail)
      → Q user
      → is_excluded exclude user.id ≡ false
      → Step start mail (
        count_if (enqueue_email (review_email key context user) mail).0 start,
        (enqueue_email (review_email key context user) mail).1,
      )
  notify_one user start mail q h =
      let email = review_email key context user in
      let did = (enqueue_email email mail).0 in
      (
        count_if did 0,
        count_if-add did start,
        extends-imp (IsRowOf email) IsMail (count_if did 0) mail (enqueue_email email mail).1
            (λ e r. record {
              user = user;
              eligible = q;
              not_excluded = h;
              address = some_inj (sym r.0);
              keyed = r.1;
            })
            (enqueue_email-Grows email mail),
      )

  notify_each-Step :
      (users : List User) (start : ℕ) (mail : Mail)
      → All Q users
      → Step start mail (notify_each key context exclude users start mail)
  unfolding notify_each
  notify_each-Step [] start mail q = (0, omega arith, unchanged IsMail mail)
  notify_each-Step (user ∷ users) start mail q = elim (Bool-cases (is_excluded exclude user.id)) [
    | inl h ↦ rw (h, notify_each) (notify_each-Step users start mail q.1)
    | inr h ↦
        let sent = enqueue_email (review_email key context user) mail in
        let (k, ek, one) = notify_one user start mail q.0 h in
        let (j, ej, rest) = notify_each-Step users (count_if sent.0 start) sent.1 q.1 in
        rw (h, notify_each)
          (k + j, omega (arith, ek, ej), extends-again IsMail k j mail sent.1 _ one rest)
  ]

-- Those who may act on the permission.
pub record IsReviewer (permission : Permission) (users : List User) (user : User) : Type 0 where
  pub present : Mem user users
  pub permitted : has_permission user.role permission ≡ true
  pub active : user.is_active ≡ true
  pub verified : user.is_verified ≡ true

and-true : (a b c : Bool) → (a && b && c) ≡ true → (a ≡ true) × (b ≡ true) × (c ≡ true)
and-true true true true h = (refl, refl, refl)
and-true true true false h = cc
and-true true false c h = cc
and-true false b c h = cc

list_active_by_roles-All :
    (permission : Permission) (users : List User)
    → All
        (IsReviewer permission users)
        (list_active_by_roles (roles_with_permission permission) users)
unfolding list_active_by_roles
list_active_by_roles-All permission users =
    All-map _ _ _
      (λ u h.
        let (a, b, c) = and-true _ u.is_active u.is_verified h.1 in
        record {
          present = h.0;
          permitted = sym (roles_with_permission-eq permission u.role) ∙ a;
          active = b;
          verified = c;
        })
      (select-All _ _ users (All-Mem users))

counted :
    (P : EmailOutbox → Type 0) (mail : Mail) (r : ℕ × Mail)
    → (k : ℕ) × (r.0 ≡ 0 + k) × Extends P k mail r.1
    → Extends P r.0 mail r.1
counted P mail r (k, e, grown) = subst (λ n. Extends P n mail r.1) (omega (arith, e)) grown

-- Notifying the reviewers appends to the mail outbox exactly the reported number of rows, each
-- addressed to a user of the list who is active, verified and holds the permission, keyed by
-- that user, and none to the excluded user.
pub notify_reviewers-Extends :
    (permission : Permission) (key : ℕ → EmailKey) (context : EmailContext) (exclude : Option ℕ)
    (users : List User) (mail : Mail)
    → Extends
        (IsReviewMail key exclude (IsReviewer permission users))
        (notify_reviewers permission key context exclude users mail).0
        mail
        (notify_reviewers permission key context exclude users mail).1
unfolding notify_reviewers
notify_reviewers-Extends permission key context exclude users mail = counted _ mail _ (
    notify_each-Step key context exclude (IsReviewer permission users)
      (list_active_by_roles (roles_with_permission permission) users) 0 mail
      (list_active_by_roles-All permission users))
