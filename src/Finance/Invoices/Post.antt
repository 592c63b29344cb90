-- ===== src/Finance/Invoices/Post.antt =====
-- Appending an event and projecting its invoice, over the whole database.
use mathlib.Core.Path.{subst}
use native.Mathlib.Decide.{ℕ_discrete}
use finguard.Base.{
  ℕ, ◌+◌, ◌==◌, ◌≡◌, ◌≢◌, refl, sym, ◌∙◌, Bool, false, not, ◌||◌, Option, none, some, List, [], ◌∷◌,
  ◌++◌, All-append, arith, if◌then◌else◌, if_elim, eq_test_self, leb, ◌%◌,
}
use finguard.Base.Table.{select-snoc, find_row-save_row}
use finguard.Core.Errors.{ok}
use finguard.Finance.Types.{invoice_issued}
use finguard.Finance.Fold.{InvoiceState, fold_invoice_events, finalize, snapshot_interval}
use finguard.Finance.Fold.Event.{InvoiceEvent}
use finguard.Finance.Fold.Sorting.{max_sequence}
use finguard.Finance.Fold.Replay.{replay}
use finguard.Finance.Fold.Snapshot.{to_snapshot}
use finguard.Finance.Rows.{Invoice, InvoiceSnapshot, Payment}
use finguard.Finance.Db.{
  Db, find_invoice, save_invoice, events_of, snapshots_of, payments_of, append_event,
  append_snapshot, append_payment, latest_snapshot,
}
use finguard.Finance.Invoices.Projection.{project_invoice, project_row, maybe_snapshot}
use finguard.Finance.Invoices.Caching.{IsCached, IsCached-now, project_invoice-eq-fold}
use finguard.Finance.Invoices.Invariant.{
  Projects, IsBacked, IsTracked, Inv, IsAdmissible, Projects-append, project_row-amounts,
}

-- The snapshot that `_maybe_snapshot` writes.
abbrev pub snapshot_now : ℕ → InvoiceState → InvoiceSnapshot
snapshot_now i state = record {
  invoice_id = i;
  sequence = state.sequence;
  state = to_snapshot state;
}

-- It leaves the database alone, or appends that one row.
pub maybe_snapshot_elim :
    (P : Db → Type 0) (i : ℕ) (state : InvoiceState) (db : Db)
    → P db
    → P (append_snapshot (snapshot_now i state) db)
    → P (maybe_snapshot i state db)
unfolding maybe_snapshot
maybe_snapshot_elim P i state db same fresh =
    if_elim P (state.event_count == 0 || not (state.event_count % snapshot_interval == 0)) db _ same
      (latest (latest_snapshot i db))
  where
    latest :
        (o : Option InvoiceSnapshot)
        → P (elim o [
          | none ↦ append_snapshot (snapshot_now i state) db
          | some l ↦
              if leb state.sequence l.sequence
              then db
              else append_snapshot (snapshot_now i state) db
        ])
    latest none = fresh
    latest (some l) = if_elim P (leb state.sequence l.sequence) db _ same fresh

pub eq_test_ne : (a b : ℕ) → a ≢ b → (a == b) ≡ false
eq_test_ne a b h = ground arith

-- The queries after an insertion.
pub events_of-append_self :
    (i : ℕ) (e : InvoiceEvent) (db : Db)
    → e.invoice_id ≡ i
    → events_of i (append_event e db) ≡ events_of i db ++ e ∷ []
events_of-append_self i e db h = rw select-snoc (rw (h, eq_test_self i))

pub events_of-append_ne :
    (i : ℕ) (e : InvoiceEvent) (db : Db)
    → e.invoice_id ≢ i
    → events_of i (append_event e db) ≡ events_of i db
events_of-append_ne i e db h = rw select-snoc (rw (eq_test_ne _ _ h))

pub payments_of-append_self :
    (i : ℕ) (p : Payment) (db : Db)
    → p.invoice_id ≡ i
    → payments_of i (append_payment p db) ≡ payments_of i db ++ p ∷ []
payments_of-append_self i p db h = rw select-snoc (rw (h, eq_test_self i))

pub payments_of-append_ne :
    (i : ℕ) (p : Payment) (db : Db)
    → p.invoice_id ≢ i
    → payments_of i (append_payment p db) ≡ payments_of i db
payments_of-append_ne i p db h = rw select-snoc (rw (eq_test_ne _ _ h))

snapshots_of-append_self :
    (i : ℕ) (s : InvoiceState) (db : Db)
    → snapshots_of i (append_snapshot (snapshot_now i s) db)
      ≡ snapshots_of i db ++ snapshot_now i s ∷ []
snapshots_of-append_self i s db = rw select-snoc (rw (eq_test_self i))

snapshots_of-append_ne :
    (i j : ℕ) (s : InvoiceState) (db : Db)
    → i ≢ j
    → snapshots_of j (append_snapshot (snapshot_now i s) db) ≡ snapshots_of j db
snapshots_of-append_ne i j s db h = rw select-snoc (rw (eq_test_ne _ _ h))

-- The flush of a changed row is what the next lookup finds; other rows stay.
pub find_invoice-save_self :
    (i : ℕ) (row old : Invoice) (db : Db)
    → row.id ≡ i
    → find_invoice i db ≡ some old
    → find_invoice i (save_invoice row db) ≡ some row
find_invoice-save_self i row old db e f =
    rw (find_row-save_row (λ (r : Invoice). r.id) i i row old db.invoices e f, eq_test_self i)

pub find_invoice-save_ne :
    (i j : ℕ) (row old : Invoice) (db : Db)
    → row.id ≡ i
    → find_invoice i db ≡ some old
    → i ≢ j
    → find_invoice j (save_invoice row db) ≡ find_invoice j db
find_invoice-save_ne i j row old db e f h =
    rw (find_row-save_row (λ (r : Invoice). r.id) i j row old db.invoices e f, eq_test_ne i j h)

-- One admissible event is appended to the log of an invoice that is there, and projected.
module _ (locked : Bool) (db : Db) (inv : Invoice) (e : InvoiceEvent)
    (found : find_invoice inv.id db ≡ some inv) (mine : e.invoice_id ≡ inv.id)
    (next : e.sequence ≡ max_sequence (events_of inv.id db) + 1)
    (kind : e.event_type ≢ invoice_issued)
    (admit : IsAdmissible e.event_type e.amount (replay (events_of inv.id db)))
    (proj : Projects locked inv (events_of inv.id db) (snapshots_of inv.id db)) where
  abbrev pub longer : List InvoiceEvent
  longer = events_of inv.id db ++ e ∷ []

  abbrev pub new_row : Invoice
  new_row = project_row inv (fold_invoice_events longer)

  abbrev pub logged : Db
  logged = append_event e db

  log_longer : events_of inv.id logged ≡ longer
  log_longer = events_of-append_self inv.id e db mine

  projected : Projects locked new_row longer (snapshots_of inv.id db)
  projected =
      Projects-append (events_of inv.id db) e next inv (snapshots_of inv.id db) kind admit proj

  pub final : Db
  final = maybe_snapshot inv.id (fold_invoice_events longer) (save_invoice new_row logged)

  -- What the projection returns.
  pub post_lem : project_invoice inv logged ≡ ok (new_row, final)
  unfolding final
  post_lem = rw (← log_longer) (project_invoice-eq-fold inv logged (rw log_longer projected.cached))

  row_id : new_row.id ≡ inv.id
  unfolding fold_invoice_events finalize
  row_id = (project_row-amounts inv (replay longer)).0

  saved_self : find_invoice inv.id (save_invoice new_row logged) ≡ some new_row
  saved_self = find_invoice-save_self inv.id new_row inv logged row_id found

  -- The row that the projection leaves in the table, and the payments.
  pub final_row : find_invoice inv.id final ≡ some new_row
  unfolding final
  final_row =
      maybe_snapshot_elim (λ d. find_invoice inv.id d ≡ some new_row) inv.id
        (fold_invoice_events longer) (save_invoice new_row logged) saved_self saved_self

  pub final_payments : final.payments ≡ db.payments
  unfolding final
  final_payments =
      maybe_snapshot_elim (λ d. d.payments ≡ db.payments) inv.id (fold_invoice_events longer)
        (save_invoice new_row logged) refl refl

  pub final_outbox : final.outbox ≡ db.outbox
  unfolding final
  final_outbox =
      maybe_snapshot_elim (λ d. d.outbox ≡ db.outbox) inv.id (fold_invoice_events longer)
        (save_invoice new_row logged) refl refl

  final-IsTracked : IsBacked longer (payments_of inv.id db) → IsTracked locked final inv.id
  unfolding final
  final-IsTracked backed =
      maybe_snapshot_elim (λ d. IsTracked locked d inv.id) inv.id (fold_invoice_events longer)
        (save_invoice new_row logged) (rw (saved_self, log_longer) (projected, backed))
        (rw
          (saved_self, log_longer, snapshots_of-append_self inv.id (fold_invoice_events longer) db)
          (
            record {
              total = projected.total;
              paid = projected.paid;
              credited = projected.credited;
              due = projected.due;
              solvent = projected.solvent;
              status = projected.status;
              cached =
                  All-append (IsCached longer) (snapshots_of inv.id db) _ projected.cached
                    (IsCached-now inv.id longer, tt);
            },
            backed,
          ))

  final-others : (j : ℕ) → inv.id ≢ j → IsTracked locked db j → IsTracked locked final j
  unfolding final
  final-others j h t =
      maybe_snapshot_elim (λ d. IsTracked locked d j) inv.id (fold_invoice_events longer)
        (save_invoice new_row logged) (rw (other_row, other_log) t)
        (rw
          (other_row, other_log, snapshots_of-append_ne inv.id j (fold_invoice_events longer) db h)
          t)
    where
      other_row : find_invoice j (save_invoice new_row logged) ≡ find_invoice j db
      other_row = find_invoice-save_ne inv.id j new_row inv logged row_id found h

      other_log : events_of j logged ≡ events_of j db
      other_log = events_of-append_ne j e db (λ p. h (sym mine ∙ p))

  -- The invariant holds again, if it held of the other invoices and the payments match the log.
  pub post-Inv :
      IsBacked longer (payments_of inv.id db)
      → ((j : ℕ) → inv.id ≢ j → IsTracked locked db j)
      → Inv locked final
  post-Inv backed others = record {
    tracked = λ i. elim (ℕ_discrete inv.id i) [
      | yes p ↦ subst (λ k. IsTracked locked final k) p (final-IsTracked backed)
      | no h ↦ final-others i h (others i h)
    ];
  }
