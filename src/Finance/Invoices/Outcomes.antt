-- ===== src/Finance/Invoices/Outcomes.antt =====
-- What posting a payment does to the row and the payments of its invoice.
use mathlib.Core.Path.{subst}
use finguard.Base.{
  ◌+◌, ◌==◌, ◌≡◌, ◌≢◌, refl, ap, ◌∙◌, Bool, Option, none, some, List, [], ◌∷◌, ◌++◌, arith,
  if◌then◌else◌,
}
use finguard.Base.Int.{ℤ, pos, ◌+ℤ◌, ◌-ℤ◌, ◌≤ℤ◌, leb_ℤ}
use finguard.Base.Table.{select}
use finguard.Core.Errors.{ok}
use finguard.Finance.Types.{
  invoice_issued, payment_applied, InvoiceStatus, paid, partially_paid, cancelled,
}
use finguard.Finance.Fold.{Acc, apply_event, apply_kind, fold_invoice_events, derived_status}
use finguard.Finance.Fold.Event.{InvoiceEvent, EventPayload}
use finguard.Finance.Fold.Sorting.{max_sequence}
use finguard.Finance.Fold.Replay.{replay, replay-append}
use finguard.Finance.Rows.{Invoice, Payment}
use finguard.Finance.Db.{Db, find_invoice, events_of, payments_of, append_payment, next_sequence}
use finguard.Finance.Invoices.Projection.{project_row}
use finguard.Finance.Invoices.Settle.{post_payment, payment_event}
use finguard.Finance.Invoices.Invariant.{owed, Agrees, project_row-amounts, project_row-Agrees}
use finguard.Finance.Invoices.Post.{
  post_lem, final, final_row, final_payments, payments_of-append_self,
}
use finguard.Finance.Invoices.Preserve.Posting.{Found}

-- What a payment does to the accumulated events: a cancelled log ignores it.
abbrev pub PaidAcc : Acc → ℤ → Acc → Type 0
PaidAcc acc amount acc' =
    (acc'.total ≡ acc.total)
    × (acc'.credited ≡ acc.credited)
    × (acc'.amount_paid ≡ (if acc.is_cancelled then acc.amount_paid else acc.amount_paid +ℤ amount))
    × (acc'.is_cancelled ≡ acc.is_cancelled)

apply_event-payment :
    (acc : Acc) (e : InvoiceEvent)
    → e.event_type ≡ payment_applied
    → PaidAcc acc e.amount (apply_event acc e)
unfolding apply_event apply_kind
apply_event-payment acc e k = ground arith

-- The status after a posting, from whether the log is cancelled and from the new amounts.
abbrev pub status_after : Bool → ℤ → ℤ → Option InvoiceStatus
status_after is_cancelled amount_paid balance_due =
    if is_cancelled
    then some cancelled
    else if leb_ℤ amount_paid (pos 0)
    then none
    else if leb_ℤ balance_due (pos 0)
    then some paid
    else some partially_paid

-- The row of an invoice after a payment of `amount`: settled by it, or, when the log holds a
-- cancellation, as it was.
pub record IsPaid (db : Db) (inv : Invoice) (amount : ℤ) (p : Payment) (db' : Db) : Type 0 where
  pub row : Invoice
  pub is_row : find_invoice inv.id db' ≡ some row
  pub amount_paid : row.amount_paid ≡ (
      if (replay (events_of inv.id db)).is_cancelled
      then inv.amount_paid
      else inv.amount_paid +ℤ amount)
  pub balance_due : row.balance_due ≡ inv.total -ℤ inv.amount_credited -ℤ row.amount_paid
  pub status :
      Agrees
        (status_after (replay (events_of inv.id db)).is_cancelled row.amount_paid row.balance_due)
        row.status
  pub payments : payments_of inv.id db' ≡ payments_of inv.id db ++ p ∷ []

module _ (locked : Bool) (db : Db) (inv : Invoice) (p : Payment) (payload : EventPayload)
    (f : Found locked db inv) (mine : p.invoice_id ≡ inv.id) (lo : pos 0 ≤ℤ p.amount)
    (hi : p.amount ≤ℤ inv.balance_due) where
  paid_db : Db
  paid_db = append_payment p db

  event : InvoiceEvent
  unfolding paid_db
  event = payment_event p payload paid_db

  next : event.sequence ≡ max_sequence (events_of inv.id paid_db) + 1
  unfolding event paid_db next_sequence
  next = ap (λ i. max_sequence (events_of i db) + 1) mine

  log : List InvoiceEvent
  log = events_of inv.id db

  applied : PaidAcc (replay log) p.amount (replay (log ++ event ∷ []))
  unfolding event log
  applied =
      rw (replay-append (events_of inv.id db) event (omega (arith, next)))
        (apply_event-payment (replay (events_of inv.id db)) event refl)

  not_issued : event.event_type ≢ invoice_issued
  unfolding event
  not_issued k = cc

  within : (pos 0 ≤ℤ p.amount) × (p.amount ≤ℤ owed (replay log))
  unfolding log
  within = (lo, rw f.projects.due at hi)

  row : Invoice
  row = project_row inv (fold_invoice_events (log ++ event ∷ []))

  posted : Db
  unfolding event log paid_db
  posted = final locked paid_db inv event f.row mine next not_issued within f.projects

  status_lem :
      row.amount_paid ≡ (replay (log ++ event ∷ [])).amount_paid
      → row.balance_due ≡ owed (replay (log ++ event ∷ []))
      → derived_status (replay (log ++ event ∷ [])) (owed (replay (log ++ event ∷ [])))
        ≡ status_after (replay log).is_cancelled row.amount_paid row.balance_due
  unfolding derived_status
  status_lem a b = rw (a, b, ← applied.3)

  row-IsPaid : IsPaid db inv p.amount p posted
  unfolding event log paid_db posted fold_invoice_events row
  row-IsPaid =
      let amounts = project_row-amounts inv (replay (log ++ event ∷ [])) in
      record {
        row = row;
        is_row = final_row locked paid_db inv event f.row mine next not_issued within f.projects;
        amount_paid = rw (amounts.2, applied.2, f.projects.paid);
        balance_due =
            rw (amounts.4, amounts.2, applied.0, applied.1, f.projects.total, f.projects.credited);
        status =
            subst (λ o. Agrees o row.status) (status_lem amounts.2 amounts.4)
              (project_row-Agrees inv (replay (log ++ event ∷ [])));
        payments =
            ap (λ ps. select (λ (q : Payment). q.invoice_id == inv.id) ps)
              (final_payments locked paid_db inv event f.row mine next not_issued within f.projects)
            ∙ payments_of-append_self inv.id p db mine;
      }

  -- A payment of at most the balance is always accepted, and pays the row.
  pub post_payment_lem :
      (r : Invoice × Db) × (post_payment inv p payload db ≡ ok r)
      × IsPaid db inv p.amount p r.1
      × (find_invoice inv.id r.1 ≡ some r.0)
  unfolding post_payment event paid_db posted row log
  post_payment_lem = (
    (row, posted),
    post_lem locked paid_db inv event f.row mine next not_issued within f.projects,
    row-IsPaid,
    final_row locked paid_db inv event f.row mine next not_issued within f.projects,
  )
