-- ===== src/Workers/Projector.antt =====
-- The outbox projector: `project_once` of backend/src/workers/outbox/projector.py. The rows stand in
-- the order of their creation. The broker is the argument `publish`: whether the publication of
-- an event goes through in this pass.
pub mod Delivery
use finguard.Base.{
  ℕ, zero, suc, ◌+◌, Bool, true, false, not, List, [], ◌∷◌, ◌++◌, leb, if◌then◌else◌,
}
use finguard.Finance.Rows.{OutboxEvent}

-- A row of `outbox_events`.
pub record OutboxRow : Type 0 where
  pub id : ℕ
  pub event : OutboxEvent
  pub published : Bool
  pub retry_count : ℕ

-- A row of `outbox_dead_letters`.
pub record OutboxDeadLetter : Type 0 where
  pub original_event_id : ℕ
  pub event : OutboxEvent
  pub retry_count : ℕ

pub record Outbox : Type 0 where
  pub rows : List OutboxRow
  pub dead_letters : List OutboxDeadLetter
  pub published_count : ℕ

-- `.limit(100)`
abbrev pub batch_size : ℕ
batch_size = 100

abbrev pub dead_letter : OutboxRow → OutboxDeadLetter
dead_letter r = record { original_event_id = r.id; event = r.event; retry_count = r.retry_count }

-- The body of the loop for one row, in front of what the later rows come to.
unfoldable pub project_row : (OutboxEvent → Bool) → ℕ → OutboxRow → Outbox → Outbox
project_row publish max_retries r rest =
    let failed = record r { retry_count = r.retry_count + 1 } in
    if publish r.event
    then record rest {
      rows = record r { published = true } ∷ rest.rows;
      published_count = rest.published_count + 1;
    }
    else if leb max_retries failed.retry_count
    then record rest { dead_letters = dead_letter failed ∷ rest.dead_letters }
    else record rest { rows = failed ∷ rest.rows }

-- A row that is not of the batch.
abbrev pub pass_row : OutboxRow → Outbox → Outbox
pass_row r rest = record rest { rows = r ∷ rest.rows }

-- The batch is the first `limit` rows that are not published; the loop goes through it.
unfoldable pub project_batch : (OutboxEvent → Bool) → ℕ → ℕ → List OutboxRow → Outbox
unfolding project_row
project_batch publish max_retries limit [] = record {
  rows = [];
  dead_letters = [];
  published_count = 0;
}
project_batch publish max_retries zero (r ∷ rs) =
    pass_row r (project_batch publish max_retries zero rs)
project_batch publish max_retries (suc limit) (r ∷ rs) =
    let passed = pass_row r (project_batch publish max_retries (suc limit) rs) in
    let projected =
      project_row publish max_retries r (project_batch publish max_retries limit rs) in
    if r.published then passed else projected

-- `project_once`
unfoldable pub project_once : (OutboxEvent → Bool) → ℕ → Outbox → Outbox
unfolding project_batch
project_once publish max_retries outbox =
    let batch = project_batch publish max_retries batch_size outbox.rows in
    record batch { dead_letters = outbox.dead_letters ++ batch.dead_letters }
