-- ===== src/Finance/Fold/Replay.antt =====
-- Resuming a fold from a snapshot, and what one more event does to it.
use finguard.Base.{ℕ, ◌<◌, ◌≡◌, refl, List, [], ◌∷◌, ◌++◌, foldl, max, arith, foldl-append}
use finguard.Finance.Fold.{
  Acc, new_acc, acc_from_state, apply_event, finalize, replay_from, fold_invoice_events,
  fold_from_snapshot,
}
use finguard.Finance.Fold.Event.{InvoiceEvent}
use finguard.Finance.Fold.Sorting.{
  sort_events, upto, after, sort_events-split, max_sequence, max_sequence-sort_events,
  sort_events-append_newest,
}

-- The accumulator over a whole log.
abbrev pub replay : List InvoiceEvent → Acc
replay = replay_from new_acc

-- A finalized state carries all that the fold needs to go on.
pub acc_from_state-finalize : (acc : Acc) → acc_from_state (finalize acc) ≡ acc
unfolding acc_from_state finalize
acc_from_state-finalize acc = refl

-- Resuming the fold from the state of the events up to any sequence number, with the events
-- after it, gives the state of the full replay.
pub resume-eq-replay :
    (s : ℕ) (events : List InvoiceEvent)
    → fold_from_snapshot (fold_invoice_events (upto s events)) (after s events)
      ≡ fold_invoice_events events
unfolding fold_from_snapshot fold_invoice_events
resume-eq-replay s events = rw (acc_from_state-finalize, sort_events-split s events, foldl-append)

-- One more event with a new largest sequence number is one more `_apply`.
pub replay-append :
    (events : List InvoiceEvent) (e : InvoiceEvent)
    → max_sequence events < e.sequence
    → replay (events ++ e ∷ []) ≡ apply_event (replay events) e
unfolding replay_from
replay-append events e h = rw (sort_events-append_newest events e h, foldl-append)

apply_event-sequence :
    (acc : Acc) (e : InvoiceEvent) → (apply_event acc e).sequence ≡ max acc.sequence e.sequence
unfolding apply_event
apply_event-sequence acc e = ground arith

foldl-sequence :
    (acc : Acc) (es : List InvoiceEvent)
    → (foldl apply_event acc es).sequence ≡ max acc.sequence (max_sequence es)
unfolding max_sequence
foldl-sequence acc [] = omega arith
foldl-sequence acc (e ∷ es) =
    omega (arith, foldl-sequence (apply_event acc e) es, apply_event-sequence acc e)

-- The sequence of a replayed log is its largest sequence number.
pub sequence-replay : (es : List InvoiceEvent) → (replay es).sequence ≡ max_sequence es
unfolding replay_from
sequence-replay es =
    omega (arith, foldl-sequence new_acc (sort_events es), max_sequence-sort_events es)

pub sequence-fold : (es : List InvoiceEvent) → (fold_invoice_events es).sequence ≡ max_sequence es
unfolding fold_invoice_events finalize
sequence-fold es = sequence-replay es
