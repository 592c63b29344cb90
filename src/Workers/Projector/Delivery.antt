-- ===== src/Workers/Projector/Delivery.antt =====
-- No event is lost or delivered to two places, and a poison event is retried a bounded number of
-- times.
use finguard.Base.{
  weight, ℕ, zero, suc, ◌+◌, ◌==◌, ◌<◌, ◌≡◌, Bool, false, List, [], ◌∷◌, ◌++◌, leb, arith, All,
  All-append, if_elim, if_cases,
}
use finguard.Finance.Rows.{OutboxEvent}
use finguard.Workers.Projector.{
  OutboxRow, OutboxDeadLetter, Outbox, batch_size, project_row, project_batch, project_once,
}

-- How many rows and dead letters an event has.
abbrev pub row_count : ℕ → List OutboxRow → ℕ
row_count i [] = 0
row_count i (r ∷ rs) = weight (r.id == i) + row_count i rs

abbrev pub dead_count : ℕ → List OutboxDeadLetter → ℕ
dead_count i [] = 0
dead_count i (d ∷ ds) = weight (d.original_event_id == i) + dead_count i ds

abbrev pub copies : ℕ → Outbox → ℕ
copies i outbox = row_count i outbox.rows + dead_count i outbox.dead_letters

dead_count-append :
    (i : ℕ) (xs ys : List OutboxDeadLetter)
    → dead_count i (xs ++ ys) ≡ dead_count i xs + dead_count i ys
dead_count-append i [] ys = omega arith
dead_count-append i (x ∷ xs) ys = omega (arith, dead_count-append i xs ys)

project_row-copies :
    (publish : OutboxEvent → Bool) (max_retries i : ℕ) (r : OutboxRow) (rest : Outbox)
    → copies i (project_row publish max_retries r rest) ≡ weight (r.id == i) + copies i rest
unfolding project_row
project_row-copies publish max_retries i r rest =
    let P = λ (o : Outbox). copies i o ≡ weight (r.id == i) + copies i rest in
    if_elim P (publish r.event) _ _ (omega arith)
      (if_elim P (leb max_retries (r.retry_count + 1)) _ _ (omega arith) (omega arith))

project_batch-copies :
    (publish : OutboxEvent → Bool) (max_retries limit i : ℕ) (rows : List OutboxRow)
    → copies i (project_batch publish max_retries limit rows) ≡ row_count i rows
unfolding project_batch
project_batch-copies publish max_retries limit i [] = omega arith
project_batch-copies publish max_retries zero i (r ∷ rows) =
    omega (arith, project_batch-copies publish max_retries zero i rows)
project_batch-copies publish max_retries (suc limit) i (r ∷ rows) =
    let batch = project_batch publish max_retries limit rows in
    if_elim (λ (o : Outbox). copies i o ≡ weight (r.id == i) + row_count i rows) r.published _ _
      (omega (arith, project_batch-copies publish max_retries (suc limit) i rows))
      (omega (
        arith,
        project_row-copies publish max_retries i r batch,
        project_batch-copies publish max_retries limit i rows,
      ))

-- A pass of the projector, whatever the broker accepts, leaves the number of rows and dead
-- letters of every event together as it was: no event is lost or copied.
pub project_once-copies :
    (publish : OutboxEvent → Bool) (max_retries : ℕ) (outbox : Outbox) (i : ℕ)
    → copies i (project_once publish max_retries outbox) ≡ copies i outbox
unfolding project_once
project_once-copies publish max_retries outbox i =
    let batch = project_batch publish max_retries batch_size outbox.rows in
    omega (
      arith,
      dead_count-append i outbox.dead_letters batch.dead_letters,
      project_batch-copies publish max_retries batch_size i outbox.rows,
    )

-- Rows are retried less often than the bound, and a dead letter exactly as often.
pub record IsBounded (max_retries : ℕ) (outbox : Outbox) : Type 0 where
  pub rows : All (λ (r : OutboxRow). r.published ≡ false → r.retry_count < max_retries) outbox.rows
  pub dead : All (λ (d : OutboxDeadLetter). d.retry_count ≡ max_retries) outbox.dead_letters

project_row-IsBounded :
    (publish : OutboxEvent → Bool) (max_retries : ℕ) (r : OutboxRow) (rest : Outbox)
    → r.retry_count < max_retries
    → IsBounded max_retries rest
    → IsBounded max_retries (project_row publish max_retries r rest)
unfolding project_row
project_row-IsBounded publish max_retries r rest lt h =
    if_elim (IsBounded max_retries) (publish r.event) _ _
      (record { rows = (λ e. lt, h.rows); dead = h.dead })
      (if_cases (IsBounded max_retries) (leb max_retries (r.retry_count + 1)) _ _
        (λ j. record { rows = h.rows; dead = (ground (arith, j, lt), h.dead) })
        (λ j. record { rows = (λ e. ground (arith, j), h.rows); dead = h.dead }))

project_batch-IsBounded :
    (publish : OutboxEvent → Bool) (max_retries limit : ℕ) (rows : List OutboxRow)
    → All (λ (r : OutboxRow). r.published ≡ false → r.retry_count < max_retries) rows
    → IsBounded max_retries (project_batch publish max_retries limit rows)
unfolding project_batch
project_batch-IsBounded publish max_retries limit [] h = record { rows = tt; dead = tt }
project_batch-IsBounded publish max_retries zero (r ∷ rows) h =
    let rest = project_batch-IsBounded publish max_retries zero rows h.1 in
    record { rows = (h.0, rest.rows); dead = rest.dead }
project_batch-IsBounded publish max_retries (suc limit) (r ∷ rows) h =
    if_cases (IsBounded max_retries) r.published _ _
      (λ k.
        let rest = project_batch-IsBounded publish max_retries (suc limit) rows h.1 in
        record { rows = (h.0, rest.rows); dead = rest.dead })
      (λ k.
        project_row-IsBounded publish max_retries r (project_batch publish max_retries limit rows)
          (h.0 k) (project_batch-IsBounded publish max_retries limit rows h.1))

-- If every unpublished row was retried less often than the bound and every dead letter exactly
-- as often, then this is so after a pass of the projector, whatever the broker accepts.
project_once-IsBounded :
    (publish : OutboxEvent → Bool) (max_retries : ℕ) (outbox : Outbox)
    → IsBounded max_retries outbox
    → IsBounded max_retries (project_once publish max_retries outbox)
unfolding project_once
project_once-IsBounded publish max_retries outbox h =
    let batch = project_batch-IsBounded publish max_retries batch_size outbox.rows h.rows in
    record { rows = batch.rows; dead = All-append _ outbox.dead_letters _ h.dead batch.dead }
