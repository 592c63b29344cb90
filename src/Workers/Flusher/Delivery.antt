-- ===== src/Workers/Flusher/Delivery.antt =====
-- No email is lost or doubled, retries are bounded, and a pass works off what is due.
use Prim.Native.Nat.{min}
use finguard.Base.{
  weight, ℕ, zero, suc, ◌+◌, ◌<◌, ◌≡◌, Bool, true, ◌&&◌, List, [], ◌∷◌, leb, arith, All, if_elim,
  if_cases,
}
use finguard.Notifications.{EmailDeadLetter, EmailOutbox, EmailKey, same_key}
use finguard.Workers.Flusher.{
  Flushed, flush_batch, is_unsent, is_due, flush_row, flush_rows, flush_once,
}

-- How many rows and dead letters carry the key.
abbrev pub rows_with : EmailKey → List EmailOutbox → ℕ
rows_with k [] = 0
rows_with k (r ∷ rs) = weight (same_key r.idempotency_key k) + rows_with k rs

abbrev pub letters_with : EmailKey → List EmailDeadLetter → ℕ
letters_with k [] = 0
letters_with k (d ∷ ds) = weight (same_key d.idempotency_key k) + letters_with k ds

abbrev pub kept : EmailKey → Flushed → ℕ
kept k f = rows_with k f.rows + letters_with k f.dead_letters

flush_row-kept :
    (send : EmailOutbox → Bool) (max_retries : ℕ) (k : EmailKey) (r : EmailOutbox) (rest : Flushed)
    → kept k (flush_row send max_retries r rest)
      ≡ weight (same_key r.idempotency_key k) + kept k rest
unfolding flush_row
flush_row-kept send max_retries k r rest =
    let P = λ (f : Flushed). kept k f ≡ weight (same_key r.idempotency_key k) + kept k rest in
    if_elim P (send r) _ _ (omega arith)
      (if_elim P (leb max_retries (r.attempts + 1)) _ _ (omega arith) (omega arith))

flush_rows-kept :
    (send : EmailOutbox → Bool) (max_retries now limit : ℕ) (k : EmailKey) (rows : List EmailOutbox)
    → kept k (flush_rows send max_retries now limit rows) ≡ rows_with k rows
unfolding flush_rows
flush_rows-kept send max_retries now limit k [] = omega arith
flush_rows-kept send max_retries now zero k (r ∷ rows) =
    omega (arith, flush_rows-kept send max_retries now zero k rows)
flush_rows-kept send max_retries now (suc limit) k (r ∷ rows) =
    let rest = flush_rows send max_retries now limit rows in
    if_elim (λ (f : Flushed). kept k f ≡ weight (same_key r.idempotency_key k) + rows_with k rows)
      (is_due now r) _ _
      (omega (
        arith,
        flush_row-kept send max_retries k r rest,
        flush_rows-kept send max_retries now limit k rows,
      ))
      (omega (arith, flush_rows-kept send max_retries now (suc limit) k rows))

-- A pass of the email flusher, whatever the mail server accepts, leaves for each idempotency key
-- as many rows and new dead letters together as there were rows: no email is lost or doubled.
pub flush_once-kept :
    (send : EmailOutbox → Bool) (max_retries now : ℕ) (rows : List EmailOutbox) (k : EmailKey)
    → kept k (flush_once send max_retries now rows) ≡ rows_with k rows
unfolding flush_once
flush_once-kept send max_retries now rows k =
    flush_rows-kept send max_retries now flush_batch k rows

-- How many rows are due.
abbrev pub due_count : ℕ → List EmailOutbox → ℕ
due_count now [] = 0
due_count now (r ∷ rs) = weight (is_due now r) + due_count now rs

-- How many rows a pass reports on.
abbrev pub handled : Flushed → ℕ
handled f = f.sent + f.failed + f.dead_lettered

flush_row-handled :
    (send : EmailOutbox → Bool) (max_retries : ℕ) (r : EmailOutbox) (rest : Flushed)
    → handled (flush_row send max_retries r rest) ≡ suc (handled rest)
unfolding flush_row
flush_row-handled send max_retries r rest =
    let P = λ (f : Flushed). handled f ≡ suc (handled rest) in
    if_elim P (send r) _ _ (omega arith)
      (if_elim P (leb max_retries (r.attempts + 1)) _ _ (omega arith) (omega arith))

flush_rows-handled :
    (send : EmailOutbox → Bool) (max_retries now limit : ℕ) (rows : List EmailOutbox)
    → handled (flush_rows send max_retries now limit rows) ≡ min limit (due_count now rows)
unfolding flush_rows
flush_rows-handled send max_retries now limit [] = omega arith
flush_rows-handled send max_retries now zero (r ∷ rows) =
    omega (arith, flush_rows-handled send max_retries now zero rows)
flush_rows-handled send max_retries now (suc limit) (r ∷ rows) =
    let rest = flush_rows send max_retries now limit rows in
    if_cases
      (λ (f : Flushed). handled f ≡ min (suc limit) (weight (is_due now r) + due_count now rows))
      (is_due now r) _ _
      (λ d. rw d (
        omega (
          arith,
          flush_row-handled send max_retries r rest,
          flush_rows-handled send max_retries now limit rows,
        )))
      (λ d. rw d (omega (arith, flush_rows-handled send max_retries now (suc limit) rows)))

-- The sent, failed and dead-lettered emails that a pass reports are together the rows that were
-- due, or the batch size if more were.
flush_once-handled :
    (send : EmailOutbox → Bool) (max_retries now : ℕ) (rows : List EmailOutbox)
    → handled (flush_once send max_retries now rows) ≡ min flush_batch (due_count now rows)
unfolding flush_once
flush_once-handled send max_retries now rows =
    flush_rows-handled send max_retries now flush_batch rows

-- Unsent rows were tried less often than the bound, and a dead letter exactly as often.
pub record IsRetried (max_retries : ℕ) (f : Flushed) : Type 0 where
  pub rows : All (λ (r : EmailOutbox). is_unsent r.status ≡ true → r.attempts < max_retries) f.rows
  pub dead : All (λ (d : EmailDeadLetter). d.attempts ≡ max_retries) f.dead_letters

pub and-left : (a b : Bool) → (a && b) ≡ true → a ≡ true
and-left a b h = ground arith

flush_row-IsRetried :
    (send : EmailOutbox → Bool) (max_retries : ℕ) (r : EmailOutbox) (rest : Flushed)
    → r.attempts < max_retries
    → IsRetried max_retries rest
    → IsRetried max_retries (flush_row send max_retries r rest)
unfolding flush_row
flush_row-IsRetried send max_retries r rest lt h =
    if_elim (IsRetried max_retries) (send r) _ _
      (record { rows = (λ e. lt, h.rows); dead = h.dead })
      (if_cases (IsRetried max_retries) (leb max_retries (r.attempts + 1)) _ _
        (λ j. record { rows = h.rows; dead = (ground (arith, j, lt), h.dead) })
        (λ j. record { rows = (λ e. ground (arith, j), h.rows); dead = h.dead }))

pub flush_rows-IsRetried :
    (send : EmailOutbox → Bool) (max_retries now limit : ℕ) (rows : List EmailOutbox)
    → All (λ (r : EmailOutbox). is_unsent r.status ≡ true → r.attempts < max_retries) rows
    → IsRetried max_retries (flush_rows send max_retries now limit rows)
unfolding flush_rows
flush_rows-IsRetried send max_retries now limit [] h = record { rows = tt; dead = tt }
flush_rows-IsRetried send max_retries now zero (r ∷ rows) h =
    let rest = flush_rows-IsRetried send max_retries now zero rows h.1 in
    record { rows = (h.0, rest.rows); dead = rest.dead }
flush_rows-IsRetried send max_retries now (suc limit) (r ∷ rows) h =
    if_cases (IsRetried max_retries) (is_due now r) _ _
      (λ d.
        flush_row-IsRetried send max_retries r (flush_rows send max_retries now limit rows)
          (h.0 (and-left (is_unsent r.status) _ d))
          (flush_rows-IsRetried send max_retries now limit rows h.1))
      (λ d.
        let rest = flush_rows-IsRetried send max_retries now (suc limit) rows h.1 in
        record { rows = (h.0, rest.rows); dead = rest.dead })

-- If every unsent row was tried less often than the bound, then this is so after a pass, and
-- every dead letter of the pass was tried exactly as often as the bound.
pub flush_once-IsRetried :
    (send : EmailOutbox → Bool) (max_retries now : ℕ) (rows : List EmailOutbox)
    → All (λ (r : EmailOutbox). is_unsent r.status ≡ true → r.attempts < max_retries) rows
    → IsRetried max_retries (flush_once send max_retries now rows)
unfolding flush_once
flush_once-IsRetried send max_retries now rows h =
    flush_rows-IsRetried send max_retries now flush_batch rows h
