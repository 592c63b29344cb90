-- ===== src/Notifications/Reviewers.antt =====
-- `notify_reviewers` (backend/src/domains/notifications/reviewers.py).
use finguard.Base.{
  ℕ, ◌+◌, ◌==◌, Bool, true, false, Option, none, some, List, [], ◌∷◌, if◌then◌else◌,
}
use finguard.Identity.{User, list_active_by_roles}
use finguard.Identity.Permissions.{Permission, roles_with_permission}
use finguard.Notifications.{Email, EmailContext, approval, EmailKey, Mail, enqueue_email}

-- `exclude_user_id is not None and user.id == exclude_user_id`
abbrev pub is_excluded : Option ℕ → ℕ → Bool
is_excluded none user_id = false
is_excluded (some excluded) user_id = user_id == excluded

-- The email to one reviewer. The key is made of the prefix, the resource and the user.
abbrev pub review_email : (ℕ → EmailKey) → EmailContext → User → Email
review_email key context user = record {
  to_email = some user.email;
  to_name = some user.full_name;
  context = context;
  idempotency_key = key user.id;
  category = approval;
}

abbrev pub count_if : Bool → ℕ → ℕ
count_if true n = n + 1
count_if false n = n

-- The loop over the reviewers.
unfoldable pub notify_each :
    (ℕ → EmailKey) → EmailContext → Option ℕ → List User → ℕ → Mail → ℕ × Mail
notify_each key context exclude [] enqueued mail = (enqueued, mail)
notify_each key context exclude (user ∷ users) enqueued mail =
    let did = enqueue_email (review_email key context user) mail in
    let state : ℕ × Mail =
      if is_excluded exclude user.id then (enqueued, mail) else (count_if did.0 enqueued, did.1) in
    notify_each key context exclude users state.0 state.1

unfoldable pub notify_reviewers :
    Permission → (ℕ → EmailKey) → EmailContext → Option ℕ → List User → Mail → ℕ × Mail
unfolding notify_each
notify_reviewers permission key context exclude users mail =
    notify_each key context exclude (list_active_by_roles (roles_with_permission permission) users)
      0 mail
