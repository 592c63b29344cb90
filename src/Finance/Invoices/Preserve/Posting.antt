-- ===== src/Finance/Invoices/Preserve/Posting.antt =====
-- Posting a payment or an adjustment keeps the invariant.
use finguard.Base.{
  ℕ, ◌+◌, ◌≡◌, ◌≢◌, ◌⊎◌, inl, inr, refl, sym, ap, ◌∙◌, Bool, false, some, List, [], ◌∷◌, ◌++◌,
  arith, Bool-cases,
}
use finguard.Base.Int.{pos, ◌≤ℤ◌, int_laws, sum_by-append}
use finguard.Base.Table.{find_row-key}
use finguard.Core.Errors.{Ensures}
use finguard.Finance.Types.{invoice_issued, payment_applied, credit_note_applied, invoice_cancelled}
use finguard.Finance.Fold.{Acc, apply_event, apply_kind}
use finguard.Finance.Fold.Event.{InvoiceEvent, EventPayload}
use finguard.Finance.Fold.Sorting.{max_sequence}
use finguard.Finance.Fold.Replay.{replay, replay-append}
use finguard.Finance.Rows.{Invoice, Payment}
use finguard.Finance.Db.{
  Db, find_invoice, events_of, snapshots_of, payments_of, append_event, append_payment,
  next_sequence,
}
use finguard.Finance.Invoices.Projection.{project_invoice}
use finguard.Finance.Invoices.Settle.{post_payment, payment_event}
use finguard.Finance.Invoices.Invariant.{Projects, IsBacked, Inv, IsAdmissible, owed, amount_of}
use finguard.Finance.Invoices.Post.{
  post_lem, post-Inv, payments_of-append_self, payments_of-append_ne,
}

-- What the invariant says of a row that is found.
pub record Found (locked : Bool) (db : Db) (inv : Invoice) : Type 0 where
  pub row : find_invoice inv.id db ≡ some inv
  pub projects : Projects locked inv (events_of inv.id db) (snapshots_of inv.id db)
  pub backed : IsBacked (events_of inv.id db) (payments_of inv.id db)

pub found :
    (locked : Bool) {db : Db} (i : ℕ) (inv : Invoice)
    → Inv locked db
    → find_invoice i db ≡ some inv
    → Found locked db inv
found locked {db} i inv h e =
    let same : inv.id ≡ i = find_row-key (λ (r : Invoice). r.id) i db.invoices inv e in
    let row : find_invoice inv.id db ≡ some inv = ap (λ k. find_invoice k db) same ∙ e in
    let t = rw row at (h.tracked inv.id) in record { row = row; projects = t.0; backed = t.1 }

-- A payment keeps the payments in step with the log.
IsBacked-payment :
    (es : List InvoiceEvent) (e : InvoiceEvent) (ps : List Payment) (p : Payment)
    → e.sequence ≡ max_sequence es + 1
    → e.event_type ≡ payment_applied
    → p.amount ≡ e.amount
    → IsBacked es ps
    → IsBacked (es ++ e ∷ []) (ps ++ p ∷ [])
unfolding apply_event apply_kind
IsBacked-payment es e ps p n k a h =
    rw (replay-append es e (omega arith), k, sum_by-append amount_of ps (p ∷ []))
      (elim (Bool-cases (replay es).is_cancelled) [
        | inl c ↦ rw c (λ f. cc)
        | inr c ↦ rw c (λ f. rw (h c, a) (omega int_laws))
      ])

abbrev IsAdjustment : InvoiceEvent → Type 0
IsAdjustment e = (e.event_type ≡ credit_note_applied) ⊎ (e.event_type ≡ invoice_cancelled)

apply_event-adjustment :
    (acc : Acc) (e : InvoiceEvent)
    → IsAdjustment e
    → ((apply_event acc e).amount_paid ≡ acc.amount_paid)
      × ((apply_event acc e).is_cancelled ≡ false → acc.is_cancelled ≡ false)
unfolding apply_event apply_kind
apply_event-adjustment acc e k = ground arith

-- Another event leaves the paid amount alone.
IsBacked-adjustment :
    (es : List InvoiceEvent) (e : InvoiceEvent) (ps : List Payment)
    → e.sequence ≡ max_sequence es + 1
    → IsAdjustment e
    → IsBacked es ps
    → IsBacked (es ++ e ∷ []) ps
IsBacked-adjustment es e ps n k h =
    let step = apply_event-adjustment (replay es) e k in
    rw (replay-append es e (omega arith)) (λ c. h (step.1 c) ∙ sym step.0)

-- A payment of at most the balance, posted to an invoice that is there.
pub post_payment-Inv :
    (locked : Bool) (db : Db) (inv : Invoice) (p : Payment) (payload : EventPayload)
    → Inv locked db
    → Found locked db inv
    → p.invoice_id ≡ inv.id
    → pos 0 ≤ℤ p.amount
    → p.amount ≤ℤ inv.balance_due
    → Ensures (λ r. Inv locked r.1) (post_payment inv p payload db)
unfolding post_payment next_sequence
post_payment-Inv locked db inv p payload h f mine lo hi =
    rw (post_lem _ paid_db inv e f.row mine next (λ k. cc) admit f.projects) (
      post-Inv _ paid_db inv e f.row mine next (λ k. cc) admit f.projects backed
        λ j ne. rw (payments_of-append_ne j p db (λ q. ne (sym mine ∙ q))) (h.tracked j))
  where
    paid_db : Db
    paid_db = append_payment p db

    e : InvoiceEvent
    e = payment_event p payload paid_db

    next : e.sequence ≡ max_sequence (events_of inv.id paid_db) + 1
    next = ap (λ i. max_sequence (events_of i db) + 1) mine

    admit : (pos 0 ≤ℤ p.amount) × (p.amount ≤ℤ owed (replay (events_of inv.id db)))
    admit = (lo, rw f.projects.due at hi)

    backed : IsBacked (events_of inv.id db ++ e ∷ []) (payments_of inv.id paid_db)
    backed =
        rw (payments_of-append_self inv.id p db mine) (
          IsBacked-payment (events_of inv.id db) e (payments_of inv.id db) p next refl refl
            f.backed)

-- Another event with an admissible amount.
pub adjust-Inv :
    (locked : Bool) (db : Db) (inv : Invoice) (e : InvoiceEvent)
    → Inv locked db
    → Found locked db inv
    → e.invoice_id ≡ inv.id
    → e.sequence ≡ max_sequence (events_of inv.id db) + 1
    → IsAdjustment e
    → IsAdmissible e.event_type e.amount (replay (events_of inv.id db))
    → Ensures (λ r. Inv locked r.1) (project_invoice inv (append_event e db))
adjust-Inv locked db inv e h f mine next k admit =
    rw (post_lem _ db inv e f.row mine next kind admit f.projects) (
      post-Inv _ db inv e f.row mine next kind admit f.projects
        (IsBacked-adjustment (events_of inv.id db) e (payments_of inv.id db) next k f.backed)
        λ j ne. h.tracked j)
  where
    kind : e.event_type ≢ invoice_issued
    kind q = ground arith
