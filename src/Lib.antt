-- ===== src/Lib.antt =====
-- Finguard's ledgers: a model of the backend's services with its correctness theorems.
--
-- The backend keeps the books of a small business. Services work on one database; a request is
-- one transaction, and a call that raises is rolled back. So every operation here is a function from
-- the database (or the tables that it touches) to a result with the new one, and the exceptions of
-- backend/src/core/exceptions.py, and an error of the database at a flush, are the errors of
-- `Core.Errors.Result`. Row locks and the advisory
-- lock of transfers make the calls of a run follow each other: a run is a sequence of steps.
--
-- Conventions
-- - A `Decimal` is an integer of its smallest unit, a cent for money and a thousandth for stock
--   quantities, in `Base.Int.ℤ`. A uuid and a timestamp are natural numbers. The clock and the
--   uuids that a call draws are its arguments.
-- - A table is the list of its rows in the order of insertion (`Base.Table`): a lookup takes the
--   first row with the key, a flush replaces it, a query selects. The database refuses a settlement
--   that the unique columns or foreign keys of payments forbid, and a callback that its columns do
--   not keep; the widths of other columns and the other constraints are left out, and a uuid that a
--   call draws is new.
-- - What the request schemas check of an amount is a hypothesis of the theorems that need it.
-- - The texts that are only shown (subjects, titles of emails, log lines) and `emitted_at` are left
--   out; JSON payloads keep their fields as a constructor for each call that writes one.
-- - No recursion needs fuel but that of the flusher's polling loop: each other one is over a list. The
--   batch of the outbox projector is bounded by `batch_size`, as in the code.
--
-- Parts
-- - Core: the exceptions and results (backend/src/core/exceptions.py).
-- - Finance.Fold: the event fold of an invoice (backend/src/domains/finance/events.py): `_apply` is
--   `apply_event`, `_finalize` is `finalize`, `_fold` is `fold`; Fold.Snapshot is `to_snapshot` and
--   `from_snapshot`: a snapshot holds the values, not the texts that JSON prints of amounts and dates.
--   The text of the status is kept.
-- - Finance.Rows and Finance.Db: the rows and queries of models.py and repository.py beside it.
-- - Finance.Invoices: the invoice calls of backend/src/domains/finance/service.py, under the names
--   that they have there. Projection is `_project_invoice_from_events` and `_maybe_snapshot`;
--   Issue, Settle and Adjust are the operations; Audit is the reconstruction and the comparison of
--   router.py. Invariant states what holds of the tables, Preserve proves it of each operation and
--   of every run, Outcomes and Settled say what a payment does, Backed that a settlement pays once. `locked` says whether the statuses
--   are only written by the operations: `update_invoice` may overwrite one.
-- - Finance.Expenses: expenses, receipts and budgets, same file; Finance.Expenses.Payables: the
--   payable state machine; Finance.Expenses.Queue: `list_payable_queue`.
-- - Finance.Vaults: balances and transfers, same file. Finance.Bank: import and review, same file.
-- - Finance.Mpesa: `process_mpesa_callback`, same file, and `mpesa_callback` of router.py. The schema
--   check of the envelope and the parser of decimals are parameters.
-- - Identity: the access policy (backend/src/domains/identity/permissions.py) and the users.
-- - Notifications: `enqueue_email` (backend/src/domains/notifications/service.py) and
--   `notify_reviewers` (reviewers.py beside it). The finance services queue their mail through it.
--   Notifications.Preferences: `set_opt_out` and `list_opt_outs`, and the page of router.py.
--   Notifications.Admin: `kpis`, `replay_dead_letter` and `resend`; a key is kept as its parts, with
--   the length of its text.
-- - Inventory: the stock ledger (backend/src/domains/inventory/service.py); `_apply` is
--   `apply_movement`, `_weighted_avg` is `Cost.weighted_avg`. The quotient is exact before it is
--   rounded, where the code's has 28 digits. LowStock has the alert calls that follow a commit:
--   `_maybe_raise_low_stock`, `_maybe_resolve_low_stock` and `reconcile_low_stock_alert`, and the
--   calls that end in them. The text of an id is a parameter. Catalogue has the products, the
--   low-stock report and the cost of goods sold.
-- - Finance.Purchases: `create_stock_purchase`, which joins finance, stock and alerts.
-- - Reconciliation: backend/src/domains/intelligence/services/reconciliation_service.py. Match has the
--   tests of a pair, Exact is `_pass1_exact`, Semantic is `_pass2_semantic`, Settle is
--   `apply_confirmed_match`, Persist the transaction of a run, Batch the two runs. An amount is a number of cents where the code has a
--   float, a score a number of hundredths, a timestamp a number of seconds.
-- - Proposals: `ProposalService` (backend/src/domains/intelligence/proposal_service.py); World holds the
--   finance tables, the stock and the proposals. StockTool is `propose_stock_movement`
--   (tools/inventory_tools.py beside it), Registry the mutation classes of agent_registry.py. A call
--   leaves what it committed also when it raises, so it returns its result beside the world. After an
--   error of the database the commit that gives a claim back fails too, and the claim stays. The
--   other exceptions of a write come before its first flush, but for a snapshot with an unknown
--   status text, which no operation stores; what that would leave is not modelled.
-- - Alerts: the alerts (backend/src/domains/alerts/service.py). Watchdog is `alert_from_watchdog`, with
--   scores in hundredths.
-- - Workers.Projector: `project_once` (backend/src/workers/outbox/projector.py); the broker is a
--   parameter, a function that says which publications go through. Workers.Flusher: `flush_once`
--   (backend/src/workers/email/flusher.py), with the mail server as such a parameter, and the
--   passes of its polling loop; the number of passes is the fuel, and as many as there are tries
--   left are enough, as a pass with something due uses up one.
--
-- Not modelled: the finance reports, the language-model agents and their tools, statistics, authentication, the audit
-- trail, CRM, the HTTP layer, the task workers and the infrastructure.
pub mod Base
pub mod Core
pub mod Identity
pub mod Reconciliation
pub mod Proposals
pub mod Notifications
pub mod Finance
pub mod Inventory
pub mod Alerts
pub mod Workers
pub mod Tests
