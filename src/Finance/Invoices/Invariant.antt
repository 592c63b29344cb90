-- ===== src/Finance/Invoices/Invariant.antt =====
-- The invariant of the invoice tables, and that one more event keeps it.
use finguard.Base.{
  ℕ, ◌+◌, ◌<◌, ◌≡◌, ◌≢◌, refl, sym, ap, ◌∙◌, Bool, true, false, Option, none, some, List, [], ◌∷◌,
  ◌++◌, All, All-map, arith, max, if_elim,
}
use finguard.Base.Int.{ℤ, pos, ◌+ℤ◌, ◌-ℤ◌, ◌≤ℤ◌, int_laws, sum_by}
use finguard.Finance.Types.{
  InvoiceStatus, InvoiceEventType, invoice_issued, payment_applied, credit_note_applied,
  invoice_cancelled,
}
use finguard.Finance.Fold.{
  derived_status, derived_paid_at, Acc, apply_event, apply_kind, finalize, fold_invoice_events,
}
use finguard.Finance.Fold.Event.{InvoiceEvent}
use finguard.Finance.Fold.Sorting.{max_sequence}
use finguard.Finance.Fold.Replay.{replay, replay-append, sequence-replay}
use finguard.Finance.Rows.{Invoice, InvoiceSnapshot, Payment}
use finguard.Finance.Db.{Db, find_invoice, events_of, snapshots_of, payments_of}
use finguard.Finance.Invoices.Projection.{project_row}
use finguard.Finance.Invoices.Caching.{IsCached, IsCached-append}

-- What is still owed by the accumulated events.
abbrev pub owed : Acc → ℤ
owed acc = acc.total -ℤ acc.credited -ℤ acc.amount_paid

-- No negative balance, no negative receipts or credits, and one sequence number for each event.
pub record IsSolvent (acc : Acc) : Type 0 where
  pub due : pos 0 ≤ℤ owed acc
  pub paid : pos 0 ≤ℤ acc.amount_paid
  pub credited : pos 0 ≤ℤ acc.credited
  pub counted : acc.count ≡ acc.sequence

-- The status that the fold derives, where it owns the status, is the status of the row.
abbrev pub Agrees : Option InvoiceStatus → InvoiceStatus → Type 0
Agrees none status = Unit
Agrees (some derived) status = status ≡ derived

-- The materialized row is the projection of the log, and every snapshot is a fold of a part of it.
-- While the status is `locked`, that is, nobody has edited it by hand, it agrees with the log too.
pub record Projects (locked : Bool) (inv : Invoice) (es : List InvoiceEvent)
    (ss : List InvoiceSnapshot) : Type 0 where
  pub total : inv.total ≡ (replay es).total
  pub paid : inv.amount_paid ≡ (replay es).amount_paid
  pub credited : inv.amount_credited ≡ (replay es).credited
  pub due : inv.balance_due ≡ owed (replay es)
  pub solvent : IsSolvent (replay es)
  pub cached : All (IsCached es) ss
  pub status : locked ≡ true → Agrees (derived_status (replay es) (owed (replay es))) inv.status

abbrev pub amount_of : Payment → ℤ
amount_of p = p.amount

-- Until the invoice is cancelled its payments add up to the paid amount.
abbrev pub IsBacked : List InvoiceEvent → List Payment → Type 0
IsBacked es ps = (replay es).is_cancelled ≡ false → sum_by amount_of ps ≡ (replay es).amount_paid

-- An invoice that is not there has no events, snapshots or payments: the foreign keys.
abbrev pub Tracks :
    Bool → Option Invoice → List InvoiceEvent → List InvoiceSnapshot → List Payment → Type 0
Tracks locked none es ss ps = (es ≡ []) × (ss ≡ []) × (ps ≡ [])
Tracks locked (some inv) es ss ps = Projects locked inv es ss × IsBacked es ps

abbrev pub IsTracked : Bool → Db → ℕ → Type 0
IsTracked locked db i =
    Tracks locked (find_invoice i db) (events_of i db) (snapshots_of i db) (payments_of i db)

pub record Inv (locked : Bool) (db : Db) : Type 0 where
  pub tracked : (i : ℕ) → IsTracked locked db i

-- What an event may do to the accumulated events.
abbrev pub IsAdmissible : InvoiceEventType → ℤ → Acc → Type 0
IsAdmissible invoice_issued amount acc = acc.credited +ℤ acc.amount_paid ≤ℤ amount
IsAdmissible invoice_cancelled amount acc = Unit
IsAdmissible kind amount acc = (pos 0 ≤ℤ amount) × (amount ≤ℤ owed acc)

kind_IsSolvent :
    (kind : InvoiceEventType) (e : InvoiceEvent) (acc : Acc)
    → IsAdmissible kind e.amount acc
    → IsSolvent acc
    → IsSolvent (apply_kind kind e acc)
unfolding apply_kind
kind_IsSolvent invoice_issued e acc a s = record {
  due = omega (int_laws, s.paid, s.credited);
  paid = s.paid;
  credited = s.credited;
  counted = s.counted;
}
kind_IsSolvent payment_applied e acc a s = record {
  due = omega (int_laws, s.due);
  paid = omega (int_laws, s.paid);
  credited = s.credited;
  counted = s.counted;
}
kind_IsSolvent credit_note_applied e acc a s = record {
  due = omega (int_laws, s.due);
  paid = s.paid;
  credited = omega (int_laws, s.credited);
  counted = s.counted;
}
kind_IsSolvent invoice_cancelled e acc a s = record {
  due = s.due;
  paid = s.paid;
  credited = s.credited;
  counted = s.counted;
}

abbrev pub counted_acc : Acc → InvoiceEvent → Acc
counted_acc acc e = record acc { count = acc.count + 1; sequence = max acc.sequence e.sequence }

counted_acc-IsSolvent :
    (acc : Acc) (e : InvoiceEvent)
    → e.sequence ≡ acc.sequence + 1
    → IsSolvent acc
    → IsSolvent (counted_acc acc e)
counted_acc-IsSolvent acc e n s = record {
  due = s.due;
  paid = s.paid;
  credited = s.credited;
  counted = omega (arith, s.counted);
}

apply_event-IsSolvent :
    (acc : Acc) (e : InvoiceEvent)
    → e.sequence ≡ acc.sequence + 1
    → IsAdmissible e.event_type e.amount acc
    → IsSolvent acc
    → IsSolvent (apply_event acc e)
unfolding apply_event
apply_event-IsSolvent acc e n a s =
    let solvent = counted_acc-IsSolvent acc e n s in
    if_elim IsSolvent acc.is_cancelled (counted_acc acc e)
      (apply_kind e.event_type e (counted_acc acc e)) solvent
      (kind_IsSolvent e.event_type e (counted_acc acc e) (admit e.event_type e.amount a) solvent)
  where
    admit :
        (kind : InvoiceEventType) (amount : ℤ)
        → IsAdmissible kind amount acc
        → IsAdmissible kind amount (counted_acc acc e)
    admit invoice_issued amount h = h
    admit payment_applied amount h = h
    admit credit_note_applied amount h = h
    admit invoice_cancelled amount h = h

apply_event-total :
    (acc : Acc) (e : InvoiceEvent)
    → e.event_type ≢ invoice_issued
    → (apply_event acc e).total ≡ acc.total
unfolding apply_event
apply_event-total acc e h = ground arith

pub project_row-amounts :
    (inv : Invoice) (acc : Acc)
    → let row = project_row inv (finalize acc) in
      (row.id ≡ inv.id)
      × (row.total ≡ inv.total)
      × (row.amount_paid ≡ acc.amount_paid)
      × (row.amount_credited ≡ acc.credited)
      × (row.balance_due ≡ owed acc)
unfolding project_row finalize
project_row-amounts inv acc = ground arith

pub project_row-Agrees :
    (inv : Invoice) (acc : Acc)
    → Agrees (derived_status acc (owed acc)) (project_row inv (finalize acc)).status
unfolding project_row finalize
project_row-Agrees inv acc =
    elim (derived_status acc (owed acc))
      as (λ o.
        Agrees o
          (elim o as (λ x. Invoice) [ none ↦ unowned | some status ↦ owned status ]).status) [
            | none ↦ tt
            | some s ↦ refl
          ]
  where
    unowned : Invoice
    unowned = record inv {
      amount_paid = acc.amount_paid;
      amount_credited = acc.credited;
      balance_due = owed acc;
    }

    owned : InvoiceStatus → Invoice
    owned status = record inv {
      amount_paid = acc.amount_paid;
      amount_credited = acc.credited;
      balance_due = owed acc;
      status = status;
      paid_at = derived_paid_at acc (owed acc);
    }

module _ (es : List InvoiceEvent) (e : InvoiceEvent) (n : e.sequence ≡ max_sequence es + 1) where
  newest_lt : max_sequence es < e.sequence
  newest_lt = omega arith

  replay-append_next : replay (es ++ e ∷ []) ≡ apply_event (replay es) e
  replay-append_next = replay-append es e newest_lt

  -- One more admissible event, and the row that is projected from the longer log.
  pub Projects-append :
      {locked : Bool} (inv : Invoice) (ss : List InvoiceSnapshot)
      → e.event_type ≢ invoice_issued
      → IsAdmissible e.event_type e.amount (replay es)
      → Projects locked inv es ss
      → Projects locked (project_row inv (fold_invoice_events (es ++ e ∷ []))) (es ++ e ∷ []) ss
  unfolding fold_invoice_events
  Projects-append inv ss k a p =
      let row = project_row-amounts inv (replay (es ++ e ∷ [])) in
      record {
        total =
            row.1
            ∙ p.total
            ∙ sym (apply_event-total (replay es) e k)
            ∙ ap (λ (acc : Acc). acc.total) (sym replay-append_next);
        paid = row.2;
        credited = row.3;
        due = row.4;
        solvent =
            rw replay-append_next
              (apply_event-IsSolvent (replay es) e (omega (arith, sequence-replay es)) a p.solvent);
        status = λ l. project_row-Agrees inv (replay (es ++ e ∷ []));
        cached =
            All-map (IsCached es) (IsCached (es ++ e ∷ [])) ss
              (λ s h. IsCached-append es e s newest_lt h) p.cached;
      }
