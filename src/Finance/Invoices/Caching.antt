-- ===== src/Finance/Invoices/Caching.antt =====
-- Snapshots are only a cache: the projection that starts from one is the fold of the whole log.
use finguard.Base.{
  ℕ, ◌<◌, ◌≤◌, ◌≡◌, refl, sym, ap, ◌∙◌, none, some, List, [], ◌∷◌, ◌++◌, All, arith, ltb,
  Bool-cases, inl, inr, ◌⊎◌,
}
use finguard.Core.Errors.{ok}
use finguard.Finance.Fold.{InvoiceState, fold_invoice_events, fold_from_snapshot, replay_from}
use finguard.Finance.Fold.Event.{InvoiceEvent}
use finguard.Finance.Fold.Sorting.{
  sort_events, sort_events_idem, upto, after, upto_all, max_sequence, max_sequence-append,
  upto-append_newer,
}
use finguard.Finance.Fold.Replay.{resume-eq-replay, sequence-fold}
use finguard.Finance.Fold.Snapshot.{to_snapshot, from_snapshot-to_snapshot}
use finguard.Finance.Rows.{Invoice, InvoiceSnapshot}
use finguard.Finance.Db.{
  Db, events_of, snapshots_of, list_by_invoice, list_after_sequence, latest_snapshot, newest,
  save_invoice,
}
use finguard.Finance.Invoices.Projection.{
  derive_state, project_invoice, project_row, maybe_snapshot,
}

-- A snapshot holds the fold of the events up to its sequence number, which the log has reached.
abbrev pub IsCached : List InvoiceEvent → InvoiceSnapshot → Type 0
IsCached es s =
    (s.state ≡ to_snapshot (fold_invoice_events (upto s.sequence es)))
    × (s.sequence ≤ max_sequence es)

newest-All :
    (P : InvoiceSnapshot → Type 0) (b : InvoiceSnapshot) (ss : List InvoiceSnapshot)
    → P b
    → All P ss
    → (s : InvoiceSnapshot) × (newest (some b) ss ≡ some s) × P s
unfolding newest
newest-All P b [] pb h = (b, refl, pb)
newest-All P b (s ∷ ss) pb h = elim (Bool-cases (ltb b.sequence s.sequence)) [
  | inl e ↦ rw e (newest-All P s ss h.0 h.1)
  | inr e ↦ rw e (newest-All P b ss pb h.1)
]

newest_cases :
    (P : InvoiceSnapshot → Type 0) (ss : List InvoiceSnapshot)
    → All P ss
    → (newest none ss ≡ none) ⊎ ((s : InvoiceSnapshot) × (newest none ss ≡ some s) × P s)
unfolding newest
newest_cases P [] h = inl refl
newest_cases P (s ∷ ss) h = inr (newest-All P s ss h.0 h.1)

fold_sorted :
    (es : List InvoiceEvent) → fold_invoice_events (sort_events es) ≡ fold_invoice_events es
unfolding fold_invoice_events replay_from
fold_sorted es = rw (sort_events_idem es)

resume_sorted :
    (base : InvoiceState) (es : List InvoiceEvent)
    → fold_from_snapshot base (sort_events es) ≡ fold_from_snapshot base es
unfolding fold_from_snapshot replay_from
resume_sorted base es = rw (sort_events_idem es)

-- With sound snapshots the derived state is the fold of the whole log, from the latest snapshot too.
pub derive_state-eq-fold :
    (i : ℕ) (db : Db)
    → All (IsCached (events_of i db)) (snapshots_of i db)
    → derive_state i db ≡ ok (fold_invoice_events (events_of i db))
unfolding derive_state latest_snapshot list_by_invoice list_after_sequence
derive_state-eq-fold i db h =
    elim (newest_cases (IsCached (events_of i db)) (snapshots_of i db) h) [
      | inl e ↦ rw (e, derive_state) (ap ok (fold_sorted (events_of i db)))
      | inr (s, e, p) ↦
          rw (e, derive_state, p.0, from_snapshot-to_snapshot)
            (ap ok (
              resume_sorted (fold_invoice_events (upto s.sequence (events_of i db)))
                (after s.sequence (events_of i db))
              ∙ resume-eq-replay s.sequence (events_of i db)))
    ]

-- If every stored snapshot of an invoice is a fold of a part of its log, then the projection,
-- which starts from the latest snapshot, does not raise, sets the row from the fold of the whole
-- log, and adds a snapshot of that state when one is due.
pub project_invoice-eq-fold :
    (invoice : Invoice) (db : Db)
    → All (IsCached (events_of invoice.id db)) (snapshots_of invoice.id db)
    → let state = fold_invoice_events (events_of invoice.id db) in
      let row = project_row invoice state in
      project_invoice invoice db ≡ ok (row, maybe_snapshot invoice.id state (save_invoice row db))
unfolding project_invoice
project_invoice-eq-fold invoice db h = rw (derive_state-eq-fold invoice.id db h)

-- A later event leaves a sound snapshot sound.
pub IsCached-append :
    (es : List InvoiceEvent) (e : InvoiceEvent) (s : InvoiceSnapshot)
    → max_sequence es < e.sequence
    → IsCached es s
    → IsCached (es ++ e ∷ []) s
IsCached-append es e s new h = (
  rw (upto-append_newer s.sequence es e (omega (arith, h.1))) h.0,
  omega (arith, h.1, max_sequence-append es (e ∷ [])),
)

-- A snapshot of the whole log is sound.
pub IsCached-now :
    (i : ℕ) (es : List InvoiceEvent)
    → let state = fold_invoice_events es in
      IsCached es (record { invoice_id = i; sequence = state.sequence; state = to_snapshot state })
IsCached-now i es = (
  ap (λ l. to_snapshot (fold_invoice_events l))
      (sym (upto_all (fold_invoice_events es).sequence es (omega (arith, sequence-fold es)))),
  omega (arith, sequence-fold es),
)
