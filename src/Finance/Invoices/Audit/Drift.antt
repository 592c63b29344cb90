-- ===== src/Finance/Invoices/Audit/Drift.antt =====
-- The read model does not drift from the event log.
use finguard.Base.{ℕ, ◌≡◌, refl, sym, ap, ◌∙◌, true, Option, none, some, List, arith}
use finguard.Base.Int.{ℤ, pos, eqb_ℤ, ◌-ℤ◌, ◌≤ℤ◌}
use finguard.Core.Errors.{Ensures, Ensures-or_raise}
use finguard.Finance.Types.{InvoiceStatus}
use finguard.Finance.Fold.{fold_invoice_events, finalize, replay_from}
use finguard.Finance.Fold.Event.{InvoiceEvent}
use finguard.Finance.Fold.Sorting.{sort_events, sort_events_idem}
use finguard.Finance.Rows.{Invoice, InvoiceSnapshot}
use finguard.Finance.Db.{Db, find_invoice, list_by_invoice, events_of, snapshots_of}
use finguard.Base.Table.{find_row-key}
use finguard.Finance.Invoices.Invariant.{Inv, Projects, Agrees}
use finguard.Finance.Invoices.Preserve.Posting.{found}
use finguard.Finance.Invoices.Preserve.Commands.{Reach, Reach-Inv}
use finguard.Finance.Invoices.Audit.{reconstruct_invoice, matches_projection, status_matches}

eqb_refl : (a b : ℤ) → b ≡ a → eqb_ℤ a b ≡ true
eqb_refl a b e = ground arith

matches_of_Agrees :
    (o : Option InvoiceStatus) (s : InvoiceStatus) → Agrees o s → status_matches o s ≡ true
matches_of_Agrees none s a = refl
matches_of_Agrees (some d) s a = ground arith

Projects-matches :
    (inv : Invoice) (es : List InvoiceEvent) (ss : List InvoiceSnapshot)
    → Projects true inv es ss
    → matches_projection inv (fold_invoice_events (sort_events es)) ≡ true
unfolding matches_projection fold_invoice_events replay_from finalize
Projects-matches inv es ss p =
    rw (sort_events_idem es, eqb_refl _ _ p.paid, eqb_refl _ _ p.credited, eqb_refl _ _ p.due)
      (matches_of_Agrees _ inv.status (p.status refl))

-- After any accepted requests that edit no status by hand, from a database in which the
-- invariant holds, the audit of an invoice that is found reports that the stored row matches the
-- fold of its events, and the stored balance is the total less credits and payments and not
-- negative.
pub reconstruct-matches :
    (start db : Db) (i : ℕ)
    → Inv true start
    → Reach true start db
    → Ensures
        (λ r.
          (matches_projection r.0 r.1 ≡ true)
          × (r.0.balance_due ≡ r.0.total -ℤ r.0.amount_credited -ℤ r.0.amount_paid)
          × (pos 0 ≤ℤ r.0.balance_due))
        (reconstruct_invoice i db)
unfolding reconstruct_invoice list_by_invoice
reconstruct-matches start db i h r = Ensures-or_raise _ (find_invoice i db) _ _ λ inv e.
    let f = found true i inv (Reach-Inv true start h r) e in
    let p = f.projects in
    (
      same_id inv e ∙ Projects-matches inv (events_of inv.id db) (snapshots_of inv.id db) p,
      p.due ∙ cc (p.total, p.credited, p.paid),
      rw p.due p.solvent.due,
    )
  where
    same_id :
        (inv : Invoice)
        → find_invoice i db ≡ some inv
        → matches_projection inv (fold_invoice_events (sort_events (events_of i db)))
          ≡ matches_projection inv (fold_invoice_events (sort_events (events_of inv.id db)))
    same_id inv e =
        ap (λ k. matches_projection inv (fold_invoice_events (sort_events (events_of k db))))
          (sym (find_row-key (λ (r : Invoice). r.id) i db.invoices inv e))
