-- ===== src/Notifications/Admin/Requeued.antt =====
-- A replay moves a dead letter back to the outbox, if its key has room.
use finguard.Base.{
  ℕ, suc, ◌+◌, ◌≡◌, ◌==◌, refl, ap, inl, inr, none, some, List, [], ◌∷◌, ◌++◌, ltb, length, arith,
  Bool-cases, if◌then◌else◌,
}
use finguard.Core.Errors.{Ensures, Ensures-or_raise, Ensures-raise_if}
use finguard.Core.Errors.AppError.{not_found, app_error}
use finguard.Notifications.{EmailOutbox, EmailStatus, EmailKey, key_length}
use finguard.Notifications.Admin.{
  MailTables, get_by_id, delete_by_id, key_limit, insert_row, replay_dead_letter, count_status,
  same_status, kpis,
}

length-delete_by_id {ℓ} :
    {A : Type ℓ} (i : ℕ) (xs : List (ℕ × A)) (a : A)
    → get_by_id i xs ≡ some a
    → suc (length (delete_by_id i xs)) ≡ length xs
unfolding get_by_id delete_by_id
length-delete_by_id i [] a h = cc
length-delete_by_id i (x ∷ xs) a h = elim (Bool-cases (x.0 == i)) [
  | inl k ↦ rw k refl
  | inr k ↦ rw k (ap suc (length-delete_by_id i xs a (rw k at h)))
]

-- What a replay leaves: one dead letter less, and one row more, which is due and has all its tries.
pub record IsReplayed (tables : MailTables) (r : EmailOutbox × MailTables) : Type 0 where
  pub id : ℕ
  pub queued : r.1.rows ≡ tables.rows ++ (id, r.0) ∷ []
  pub pending : r.0.status ≡ EmailStatus.pending
  pub fresh : r.0.attempts ≡ 0
  pub unscheduled : r.0.scheduled_for ≡ none
  pub moved : suc (length r.1.dead_letters) ≡ length tables.dead_letters

pub replay_dead_letter-IsReplayed :
    (dead_letter_id id uuid : ℕ) (tables : MailTables)
    → Ensures (IsReplayed tables) (replay_dead_letter dead_letter_id id uuid tables)
unfolding replay_dead_letter insert_row
replay_dead_letter-IsReplayed dead_letter_id id uuid tables =
    Ensures-or_raise (IsReplayed tables) (get_by_id dead_letter_id tables.dead_letters) not_found _
      (λ dl found.
        Ensures-raise_if (IsReplayed tables)
          (ltb key_limit (key_length (EmailKey.replayed dl.idempotency_key uuid))) app_error _
          (λ fits. record {
            id = id;
            queued = refl;
            pending = refl;
            fresh = refl;
            unscheduled = refl;
            moved = length-delete_by_id dead_letter_id tables.dead_letters dl found;
          }))

one_status :
    (s : EmailStatus)
    → (if same_status s EmailStatus.pending then 1 else 0)
        + (if same_status s EmailStatus.sent then 1 else 0)
        + (if same_status s EmailStatus.failed then 1 else 0)
      ≡ 1
one_status EmailStatus.pending = refl
one_status EmailStatus.sent = refl
one_status EmailStatus.failed = refl

count_status-total :
    (xs : List (ℕ × EmailOutbox))
    → count_status EmailStatus.pending xs
        + count_status EmailStatus.sent xs
        + count_status EmailStatus.failed xs
      ≡ length xs
unfolding count_status
count_status-total [] = omega arith
count_status-total (x ∷ xs) = omega (arith, one_status x.1.status, count_status-total xs)

-- The counts by status are those of all rows.
kpis-total :
    (tables : MailTables)
    → (kpis tables).pending + (kpis tables).sent + (kpis tables).failed ≡ length tables.rows
unfolding kpis
kpis-total tables = count_status-total tables.rows
