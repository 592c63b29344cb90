-- ===== src/Notifications/Admin.antt =====
-- The delivery admin: `kpis`, `replay_dead_letter` and `resend` of
-- backend/src/domains/notifications/service.py. A row stands with its id. The id of a new row is an argument, and so is the
-- uuid of its key.
pub mod Requeued
use text.Mathlib.Text.{◌==◌ as str_eq}
use mathlib.Core.List.{reverse}
use finguard.Base.{
  ℕ, ◌+◌, ◌-◌, ◌==◌, Bool, true, false, not, ◌&&◌, Option, none, some, List, [], ◌∷◌, ◌++◌, String,
  ltb, length, if◌then◌else◌, take,
}
use finguard.Base.Table.{select}
use finguard.Base.Text.{lower, is_empty}
use finguard.Core.Errors.{Result, ok, ◌>>=◌, ◌>>◌, raise_if, or_raise}
use finguard.Core.Errors.AppError.{not_found, app_error}
use finguard.Notifications.{EmailOutbox, EmailStatus, EmailDeadLetter, EmailKey, key_length}

pub record MailTables : Type 0 where
  pub rows : List (ℕ × EmailOutbox)
  pub dead_letters : List (ℕ × EmailDeadLetter)

-- `session.get`
unfoldable pub get_by_id {ℓ} : {A : Type ℓ} → ℕ → List (ℕ × A) → Option A
get_by_id i [] = none
get_by_id i (x ∷ xs) = if x.0 == i then some x.1 else get_by_id i xs

-- `session.delete`
unfoldable pub delete_by_id {ℓ} : {A : Type ℓ} → ℕ → List (ℕ × A) → List (ℕ × A)
delete_by_id i [] = []
delete_by_id i (x ∷ xs) = if x.0 == i then xs else x ∷ delete_by_id i xs

-- `String(120)`
abbrev pub key_limit : ℕ
key_limit = 120

-- The flush of a new row; a key that its column does not hold is an error of the database.
unfoldable pub insert_row : ℕ → EmailOutbox → MailTables → Result (EmailOutbox × MailTables)
unfolding key_length
insert_row id row tables =
    raise_if (ltb key_limit (key_length row.idempotency_key)) app_error
    >> ok (row, record tables { rows = tables.rows ++ (id, row) ∷ [] })

-- The row anew, under another key.
abbrev pub requeued : EmailOutbox → EmailKey → EmailOutbox
requeued row key = record {
  to_email = row.to_email;
  to_name = row.to_name;
  context = row.context;
  status = EmailStatus.pending;
  attempts = 0;
  scheduled_for = none;
  idempotency_key = key;
}

unfoldable pub replay_dead_letter : ℕ → ℕ → ℕ → MailTables → Result (EmailOutbox × MailTables)
unfolding get_by_id delete_by_id insert_row
replay_dead_letter dead_letter_id id uuid tables = do
  dl ← or_raise (get_by_id dead_letter_id tables.dead_letters) not_found
  insert_row id (requeued dl.row (EmailKey.replayed dl.idempotency_key uuid))
      (record tables { dead_letters = delete_by_id dead_letter_id tables.dead_letters })

unfoldable pub resend : ℕ → ℕ → ℕ → MailTables → Result (EmailOutbox × MailTables)
unfolding get_by_id insert_row
resend outbox_id id uuid tables = do
  src ← or_raise (get_by_id outbox_id tables.rows) not_found
  insert_row id (requeued src (EmailKey.resent src.idempotency_key uuid)) tables

abbrev status_index : EmailStatus → ℕ
status_index EmailStatus.pending = 0
status_index EmailStatus.sent = 1
status_index EmailStatus.failed = 2

abbrev pub same_status : EmailStatus → EmailStatus → Bool
same_status a b = status_index a == status_index b

-- `by_status.get(status, 0)` of the grouped count
unfoldable pub count_status : EmailStatus → List (ℕ × EmailOutbox) → ℕ
count_status status [] = 0
count_status status (x ∷ xs) =
    (if same_status x.1.status status then 1 else 0) + count_status status xs

pub record EmailKpis : Type 0 where
  pub pending : ℕ
  pub sent : ℕ
  pub failed : ℕ
  pub dead_lettered : ℕ

unfoldable pub kpis : MailTables → EmailKpis
unfolding count_status
kpis tables = record {
  pending = count_status EmailStatus.pending tables.rows;
  sent = count_status EmailStatus.sent tables.rows;
  failed = count_status EmailStatus.failed tables.rows;
  dead_lettered = length tables.dead_letters;
}
