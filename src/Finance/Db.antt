-- ===== src/Finance/Db.antt =====
-- The tables that the finance service works on, and the queries of
-- backend/src/domains/finance/repository.py over the invoice log.
use finguard.Base.{ℕ, ◌+◌, ◌==◌, Option, none, some, List, [], ◌∷◌, ◌++◌, ltb, if◌then◌else◌}
use finguard.Base.Table.{find_row, save_row, select}
use finguard.Identity.{User}
use finguard.Notifications.{Mail, Email, enqueue_email}
use finguard.Finance.Fold.Event.{InvoiceEvent}
use finguard.Finance.Fold.Sorting.{sort_events, max_sequence, after}
use finguard.Finance.Rows.{
  Invoice, InvoiceSnapshot, Payment, Expense, Budget, MpesaTransaction, BankStatementLine,
  VaultTransfer, OutboxEvent, Customer,
}

pub record Db : Type 0 where
  pub invoices : List Invoice
  pub events : List InvoiceEvent
  pub snapshots : List InvoiceSnapshot
  pub payments : List Payment
  pub expenses : List Expense
  pub budgets : List Budget
  pub mpesa : List MpesaTransaction
  pub bank_lines : List BankStatementLine
  pub transfers : List VaultTransfer
  pub customers : List Customer
  pub users : List User
  pub outbox : List OutboxEvent
  pub mail : Mail

-- `session.get(Invoice, id)`, also with `FOR UPDATE`
abbrev pub find_invoice : ℕ → Db → Option Invoice
find_invoice i db = find_row (λ (r : Invoice). r.id) i db.invoices

abbrev pub save_invoice : Invoice → Db → Db
save_invoice inv db = record db { invoices = save_row (λ (r : Invoice). r.id) inv db.invoices }

-- The log of one invoice.
abbrev pub events_of : ℕ → Db → List InvoiceEvent
events_of i db = select (λ (e : InvoiceEvent). e.invoice_id == i) db.events

abbrev pub snapshots_of : ℕ → Db → List InvoiceSnapshot
snapshots_of i db = select (λ (s : InvoiceSnapshot). s.invoice_id == i) db.snapshots

abbrev pub payments_of : ℕ → Db → List Payment
payments_of i db = select (λ (p : Payment). p.invoice_id == i) db.payments

-- `InvoiceEventRepository.next_sequence`
unfoldable pub next_sequence : ℕ → Db → ℕ
next_sequence i db = max_sequence (events_of i db) + 1

-- `InvoiceEventRepository.append`
abbrev pub append_event : InvoiceEvent → Db → Db
append_event e db = record db { events = db.events ++ e ∷ [] }

-- `InvoiceEventRepository.list_by_invoice`
unfoldable pub list_by_invoice : ℕ → Db → List InvoiceEvent
list_by_invoice i db = sort_events (events_of i db)

-- `InvoiceEventRepository.list_after_sequence`
unfoldable pub list_after_sequence : ℕ → ℕ → Db → List InvoiceEvent
list_after_sequence i s db = sort_events (after s (events_of i db))

-- `ORDER BY sequence DESC LIMIT 1`
unfoldable pub newest : Option InvoiceSnapshot → List InvoiceSnapshot → Option InvoiceSnapshot
newest best [] = best
newest none (s ∷ ss) = newest (some s) ss
newest (some b) (s ∷ ss) = newest (if ltb b.sequence s.sequence then some s else some b) ss

-- `InvoiceSnapshotRepository.latest`
unfoldable pub latest_snapshot : ℕ → Db → Option InvoiceSnapshot
unfolding newest
latest_snapshot i db = newest none (snapshots_of i db)

abbrev pub append_snapshot : InvoiceSnapshot → Db → Db
append_snapshot s db = record db { snapshots = db.snapshots ++ s ∷ [] }

-- `PaymentRepository.create`
abbrev pub append_payment : Payment → Db → Db
append_payment p db = record db { payments = db.payments ++ p ∷ [] }

-- `session.add(OutboxEvent(…))`
abbrev pub add_outbox : OutboxEvent → Db → Db
add_outbox e db = record db { outbox = db.outbox ++ e ∷ [] }

abbrev pub send_mail : Email → Db → Db
send_mail email db = record db { mail = (enqueue_email email db.mail).1 }

abbrev pub find_customer : ℕ → Db → Option Customer
find_customer i db = find_row (λ (c : Customer). c.id) i db.customers
