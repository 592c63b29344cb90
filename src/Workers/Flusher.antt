-- ===== src/Workers/Flusher.antt =====
-- The email flusher: `flush_once` of backend/src/workers/email/flusher.py. The rows stand in the
-- order of their creation. The mail server is the argument `send`: whether the sending of a row goes
-- through in this pass.
pub mod Delivery
pub mod Drain
use finguard.Base.{
  ℕ, zero, suc, ◌+◌, Bool, true, false, ◌&&◌, Option, none, some, List, [], ◌∷◌, ◌++◌, leb,
  if◌then◌else◌,
}
use finguard.Notifications.{EmailOutbox, EmailStatus, EmailDeadLetter}

-- The tables after a pass, and what it reports.
pub record Flushed : Type 0 where
  pub rows : List EmailOutbox
  pub dead_letters : List EmailDeadLetter
  pub sent : ℕ
  pub failed : ℕ
  pub dead_lettered : ℕ

-- `_BATCH_SIZE`
abbrev pub flush_batch : ℕ
flush_batch = 25

-- `status IN (PENDING, FAILED)`
abbrev pub is_unsent : EmailStatus → Bool
is_unsent EmailStatus.sent = false
is_unsent status = true

-- `scheduled_for IS NULL OR scheduled_for <= now`
abbrev pub is_scheduled : Option ℕ → ℕ → Bool
is_scheduled none now = true
is_scheduled (some t) now = leb t now

abbrev pub is_due : ℕ → EmailOutbox → Bool
is_due now r = is_unsent r.status && is_scheduled r.scheduled_for now

abbrev pub buried : EmailOutbox → EmailDeadLetter
buried r = record { row = r; attempts = r.attempts; idempotency_key = r.idempotency_key }

-- The body of the loop for one row, in front of what the later rows come to.
unfoldable pub flush_row : (EmailOutbox → Bool) → ℕ → EmailOutbox → Flushed → Flushed
flush_row send max_retries r rest =
    let tried = record r { attempts = r.attempts + 1 } in
    if send r
    then record rest {
      rows = record r { status = EmailStatus.sent } ∷ rest.rows;
      sent = rest.sent + 1;
    }
    else if leb max_retries tried.attempts
    then record rest {
      dead_letters = buried tried ∷ rest.dead_letters;
      dead_lettered = rest.dead_lettered + 1;
    }
    else record rest {
      rows = record tried { status = EmailStatus.failed } ∷ rest.rows;
      failed = rest.failed + 1;
    }

-- A row that is not of the batch.
abbrev pub leave_row : EmailOutbox → Flushed → Flushed
leave_row r rest = record rest { rows = r ∷ rest.rows }

-- The batch is the first `limit` rows that are due; the loop goes through it.
unfoldable pub flush_rows : (EmailOutbox → Bool) → ℕ → ℕ → ℕ → List EmailOutbox → Flushed
unfolding flush_row
flush_rows send max_retries now limit [] = record {
  rows = [];
  dead_letters = [];
  sent = 0;
  failed = 0;
  dead_lettered = 0;
}
flush_rows send max_retries now zero (r ∷ rs) =
    leave_row r (flush_rows send max_retries now zero rs)
flush_rows send max_retries now (suc limit) (r ∷ rs) =
    let left = leave_row r (flush_rows send max_retries now (suc limit) rs) in
    let tried = flush_row send max_retries r (flush_rows send max_retries now limit rs) in
    if is_due now r then tried else left

-- `flush_once`, on the rows of `email_outbox`: the dead letters are those that it adds.
unfoldable pub flush_once : (EmailOutbox → Bool) → ℕ → ℕ → List EmailOutbox → Flushed
unfolding flush_rows
flush_once send max_retries now rows = flush_rows send max_retries now flush_batch rows

-- The two tables.
pub record Mailbox : Type 0 where
  pub rows : List EmailOutbox
  pub dead_letters : List EmailDeadLetter

-- The first `n` passes of `run_email_flusher`: pass `i` runs at `clock i`, and the mail server takes
-- what `send i` says.
unfoldable pub flush_passes : (ℕ → EmailOutbox → Bool) → (ℕ → ℕ) → ℕ → ℕ → Mailbox → Mailbox
unfolding flush_once
flush_passes send clock max_retries zero box = box
flush_passes send clock max_retries (suc n) box =
    let pass = flush_once (send 0) max_retries (clock 0) box.rows in
    flush_passes (λ i. send (suc i)) (λ i. clock (suc i)) max_retries n
      (record { rows = pass.rows; dead_letters = box.dead_letters ++ pass.dead_letters })
