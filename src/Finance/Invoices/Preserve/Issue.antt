-- ===== src/Finance/Invoices/Preserve/Issue.antt =====
-- Creating, sending, resending and editing an invoice keep the invariant.
use mathlib.Core.Path.{subst}
use native.Mathlib.Decide.{ℕ_discrete}
use finguard.Base.{
  ℕ, ◌==◌, ◌≡◌, ◌≢◌, refl, ◌∙◌, Bool, true, false, not, ◌||◌, Option, none, some, [], ◌∷◌, ◌++◌,
  arith, if◌then◌else◌, eq_test_self, if_elim,
}
use finguard.Base.Int.{ℤ, pos, ◌≤ℤ◌, int_laws, leb_ℤ}
use finguard.Base.Table.{find_row-append}
use finguard.Core.Errors.{Ensures, Ensures-raise_if, Ensures-or_raise}
use finguard.Finance.Types.{InvoiceStatus, draft, sent, cancelled, same_status}
use finguard.Finance.Fold.{Acc, derived_status, apply_event, apply_kind, replay_from}
use finguard.Finance.Fold.Sorting.{sort_events, insert_event}
use finguard.Finance.Fold.Replay.{replay}
use finguard.Finance.Rows.{Invoice}
use finguard.Finance.Db.{
  Db, find_invoice, save_invoice, events_of, snapshots_of, payments_of, append_event,
}
use finguard.Finance.Invoices.Issue.{
  InvoiceCreate, create_invoice, issued_event, new_invoice, has_number, send_invoice,
  resend_invoice, InvoiceUpdate, update_invoice,
}
use finguard.Finance.Invoices.Invariant.{Projects, IsTracked, Inv, Agrees, owed}
use finguard.Finance.Invoices.Post.{
  find_invoice-save_self, find_invoice-save_ne, eq_test_ne, events_of-append_self,
  events_of-append_ne,
}
use finguard.Finance.Invoices.Preserve.Posting.{Found, found}

-- Two rows with the same identity and the same amounts.
record SameMoney (a b : Invoice) : Type 0 where
  id : a.id ≡ b.id
  total : a.total ≡ b.total
  paid : a.amount_paid ≡ b.amount_paid
  credited : a.amount_credited ≡ b.amount_credited
  due : a.balance_due ≡ b.balance_due

-- Editing what is not money keeps the invariant.
save-Inv :
    (locked : Bool) (db : Db) (inv row : Invoice)
    → Inv locked db
    → Found locked db inv
    → SameMoney row inv
    → (locked ≡ true
        → Agrees
            (derived_status (replay (events_of inv.id db)) (owed (replay (events_of inv.id db))))
            row.status)
    → Inv locked (save_invoice row db)
save-Inv locked db inv row h f m agree = record {
  tracked = λ j. elim (ℕ_discrete inv.id j) [
    | yes p ↦
        subst (λ k. IsTracked locked (save_invoice row db) k) p
          (rw (find_invoice-save_self inv.id row inv db m.id f.row) (projects, f.backed))
    | no ne ↦ rw (find_invoice-save_ne inv.id j row inv db m.id f.row ne) (h.tracked j)
  ];
}
  where
    projects : Projects locked row (events_of inv.id db) (snapshots_of inv.id db)
    projects = record {
      total = m.total ∙ f.projects.total;
      paid = m.paid ∙ f.projects.paid;
      credited = m.credited ∙ f.projects.credited;
      due = m.due ∙ f.projects.due;
      solvent = f.projects.solvent;
      cached = f.projects.cached;
      status = agree;
    }

-- A draft has no status that the fold owns.
sent-Agrees :
    (acc : Acc) (due : ℤ) (status : InvoiceStatus)
    → Agrees (derived_status acc due) status
    → not (same_status status draft) ≡ false
    → Agrees (derived_status acc due) sent
unfolding derived_status
sent-Agrees acc due status a h =
    if_elim Sends acc.is_cancelled _ _ (λ e. ground arith)
      (if_elim Sends (leb_ℤ acc.amount_paid (pos 0)) _ _ (λ e. tt)
        (if_elim Sends (leb_ℤ due (pos 0)) _ _ (λ e. ground arith) (λ e. ground arith)))
      a
  where
    Sends : Option InvoiceStatus → Type 0
    Sends o = Agrees o status → Agrees o sent

-- Sending a draft keeps the invariant.
pub send_invoice-Inv :
    (locked : Bool) (i : ℕ) (db : Db)
    → Inv locked db
    → Ensures (λ r. Inv locked r.1) (send_invoice i db)
unfolding send_invoice
send_invoice-Inv locked i db h = Ensures-or_raise _ (find_invoice i db) _ _ λ inv e.
    Ensures-raise_if _ (not (same_status inv.status draft)) _ _ λ is_draft.
      let f = found locked i inv h e in
      let k =
        save-Inv locked db inv (record inv { status = sent }) h f
          (record { id = refl; total = refl; paid = refl; credited = refl; due = refl })
          (λ l.
            sent-Agrees (replay (events_of inv.id db)) (owed (replay (events_of inv.id db)))
              inv.status (f.projects.status l) is_draft) in
      record { tracked = k.tracked }

-- Sending an invoice again keeps the invariant.
pub resend_invoice-Inv :
    (locked : Bool) (i nonce : ℕ) (db : Db)
    → Inv locked db
    → Ensures (λ r. Inv locked r.1) (resend_invoice i nonce db)
unfolding resend_invoice
resend_invoice-Inv locked i nonce db h = Ensures-or_raise _ (find_invoice i db) _ _ λ inv e.
    Ensures-raise_if _ (same_status inv.status draft || same_status inv.status cancelled) _ _
      λ issued. record { tracked = h.tracked }

-- Editing an invoice keeps the invariant of its money, whatever the new status.
pub update_invoice-Inv :
    (locked : Bool) (i : ℕ) (body : InvoiceUpdate) (db : Db)
    → (locked ≡ true → body.status ≡ none)
    → Inv locked db
    → Ensures (λ r. Inv locked r.1) (update_invoice i body db)
unfolding update_invoice
update_invoice-Inv locked i body db unedited h = Ensures-or_raise _ (find_invoice i db) _ _ λ inv e.
    let f = found locked i inv h e in
    save-Inv locked db inv _ h f
      (record { id = refl; total = refl; paid = refl; credited = refl; due = refl })
      (λ l. rw (unedited l) (f.projects.status l))

-- The log of a new invoice is projected by its row.
new_invoice-Projects :
    (locked : Bool) (body : InvoiceCreate) (id now : ℕ)
    → pos 0 ≤ℤ body.subtotal
    → pos 0 ≤ℤ body.tax
    → Projects locked (new_invoice body id now) (issued_event body id now ∷ []) []
unfolding new_invoice replay_from sort_events insert_event apply_event apply_kind derived_status
new_invoice-Projects locked body id now s t = record {
  total = refl;
  paid = refl;
  credited = refl;
  due = omega int_laws;
  solvent = record {
    due = omega int_laws;
    paid = omega arith;
    credited = omega arith;
    counted = refl;
  };
  cached = tt;
  status = λ l. tt;
}

-- A new invoice with a fresh id, a positive subtotal and no negative tax.
pub create_invoice-Inv :
    (locked : Bool) (body : InvoiceCreate) (id now : ℕ) (db : Db)
    → pos 0 ≤ℤ body.subtotal
    → pos 0 ≤ℤ body.tax
    → find_invoice id db ≡ none
    → Inv locked db
    → Ensures (λ r. Inv locked r.1) (create_invoice body id now db)
unfolding create_invoice
create_invoice-Inv locked body id now db s t fresh h =
    Ensures-raise_if _ (has_number body.invoice_number db.invoices) _ _ λ new. record {
      tracked = λ j. elim (ℕ_discrete id j) [
        | yes p ↦ subst (λ k. IsTracked locked inserted k) p itself
        | no ne ↦
            rw (other_row j ne, events_of-append_ne j (issued_event body id now) db ne)
              (h.tracked j)
      ];
    }
  where
    row : Invoice
    row = new_invoice body id now

    inserted : Db
    inserted =
        append_event (issued_event body id now) (record db { invoices = db.invoices ++ row ∷ [] })

    row_id : row.id ≡ id
    row_id = refl

    empty : (events_of id db ≡ []) × (snapshots_of id db ≡ []) × (payments_of id db ≡ [])
    empty = rw fresh at (h.tracked id)

    found_row :
        (j : ℕ) → find_invoice j inserted ≡ (if id == j then some row else find_invoice j db)
    found_row j = find_row-append (λ (r : Invoice). r.id) j row db.invoices fresh

    other_row : (j : ℕ) → id ≢ j → find_invoice j inserted ≡ find_invoice j db
    other_row j ne = rw (found_row j, eq_test_ne id j ne)

    itself : IsTracked locked inserted id
    itself =
        rw
          (
            found_row id,
            eq_test_self id,
            events_of-append_self id (issued_event body id now) db refl,
            empty.0,
            empty.1,
            empty.2,
          )
          (
            new_invoice-Projects locked body id now s t,
            λ c. (new_invoice-Projects locked body id now s t).paid,
          )
