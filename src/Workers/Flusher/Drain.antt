-- ===== src/Workers/Flusher/Drain.antt =====
-- The polling loop works off what is due, whatever the mail server does.
use finguard.Base.{ℕ, ◌+◌, ◌-◌, ◌<◌, ◌≡◌, Bool, true, false, List, [], ◌∷◌, All}
use finguard.Notifications.{EmailOutbox, EmailKey}
use finguard.Workers.Flusher.{Mailbox, is_unsent}
use finguard.Workers.Flusher.Delivery.{rows_with, letters_with, due_count}

-- The unsent rows were tried less often than the bound.
abbrev pub IsTriable : ℕ → List EmailOutbox → Type 0
IsTriable max_retries rows =
    All (λ (r : EmailOutbox). is_unsent r.status ≡ true → r.attempts < max_retries) rows

-- How many tries an unsent row has left.
abbrev row_tries : Bool → ℕ → ℕ → ℕ
row_tries true max_retries attempts = max_retries - attempts
row_tries false max_retries attempts = 0

abbrev pub tries_left : ℕ → List EmailOutbox → ℕ
tries_left max_retries [] = 0
tries_left max_retries (r ∷ rs) =
    row_tries (is_unsent r.status) max_retries r.attempts + tries_left max_retries rs

-- The rows and dead letters of a key.
abbrev pub held : EmailKey → Mailbox → ℕ
held k box = rows_with k box.rows + letters_with k box.dead_letters

-- What a mailbox comes to.
pub record IsDrained (now : ℕ) (before after : Mailbox) : Type 0 where
  pub none_due : due_count now after.rows ≡ 0
  pub none_lost : (k : EmailKey) → held k after ≡ held k before
