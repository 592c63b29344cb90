-- ===== src/Notifications/Preferences.antt =====
-- The preferences on emails: `set_opt_out` and `list_opt_outs` of
-- backend/src/domains/notifications/service.py, and the page of router.py that lists them.
pub mod Choice
use text.Mathlib.Text.{◌==◌ as str_eq}
use finguard.Base.{Bool, true, false, not, ◌&&◌, ◌||◌, List, [], ◌∷◌, ◌++◌, String, if◌then◌else◌}
use finguard.Base.Text.{lower}
use finguard.Notifications.{EmailCategory, EmailOptOut, same_category, suppressible, is_opted_out}

-- The row that `set_opt_out` inserts.
abbrev pub opt_out_row : String → EmailCategory → EmailOptOut
opt_out_row email category = record { email = lower email; category = category }

-- `INSERT … ON CONFLICT DO NOTHING` on the index of email and category.
unfoldable pub insert_opt_out : String → EmailCategory → List EmailOptOut → List EmailOptOut
insert_opt_out email category os =
    if is_opted_out email category os then os else os ++ opt_out_row email category ∷ []

-- `DELETE … WHERE`
unfoldable pub delete_opt_out : String → EmailCategory → List EmailOptOut → List EmailOptOut
delete_opt_out email category [] = []
delete_opt_out email category (o ∷ os) =
    if str_eq o.email (lower email) && same_category o.category category
    then delete_opt_out email category os
    else o ∷ delete_opt_out email category os

-- `set_opt_out`
unfoldable pub set_opt_out : String → EmailCategory → Bool → List EmailOptOut → List EmailOptOut
unfolding insert_opt_out delete_opt_out
set_opt_out email category opted_out os =
    if not (suppressible category)
    then os
    else if opted_out
    then insert_opt_out email category os
    else delete_opt_out email category os

-- `list_opt_outs`; the set is a list.
unfoldable pub list_opt_outs : String → List EmailOptOut → List EmailCategory
list_opt_outs email [] = []
list_opt_outs email (o ∷ os) =
    if str_eq o.email (lower email)
    then o.category ∷ list_opt_outs email os
    else list_opt_outs email os

unfoldable pub mem_category : EmailCategory → List EmailCategory → Bool
mem_category category [] = false
mem_category category (c ∷ cs) = same_category c category || mem_category category cs

pub record CategoryPreference : Type 0 where
  pub category : EmailCategory
  pub opted_out : Bool

-- The entries for the categories in `cs`.
unfoldable pub preferences_of : List EmailCategory → List EmailCategory → List CategoryPreference
unfolding mem_category
preferences_of [] opted_out = []
preferences_of (c ∷ cs) opted_out =
    record { category = c; opted_out = mem_category c opted_out } ∷ preferences_of cs opted_out

-- The suppressible ones of the categories.
unfoldable pub only_suppressible : List EmailCategory → List EmailCategory
only_suppressible [] = []
only_suppressible (c ∷ cs) =
    if suppressible c then c ∷ only_suppressible cs else only_suppressible cs

-- `_ordered_suppressible`
unfoldable pub ordered_suppressible : List EmailCategory
unfolding only_suppressible
ordered_suppressible = only_suppressible (
    EmailCategory.account ∷ EmailCategory.receipt ∷ EmailCategory.invoice ∷ EmailCategory.approval
    ∷ EmailCategory.reminder ∷ [])

-- `get_preferences`
unfoldable pub get_preferences : String → List EmailOptOut → List CategoryPreference
unfolding preferences_of ordered_suppressible list_opt_outs
get_preferences email os = preferences_of ordered_suppressible (list_opt_outs email os)
