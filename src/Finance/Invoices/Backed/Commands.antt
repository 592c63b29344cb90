-- ===== src/Finance/Invoices/Backed/Commands.antt =====
-- No sequence of requests makes a settlement pay twice.
use finguard.Base.{ℕ, refl, Bool, not, ◌||◌, Option, none, some, [], ◌∷◌, ◌++◌, String}
use finguard.Base.Int.{ℤ, pos, ltb_ℤ, leb_ℤ, min_ℤ}
use finguard.Core.Errors.{
  Result, ok, err, Ensures, Ensures-raise_if, Ensures-or_raise, Ensures-bind, Ensures-if,
  Ensures-any,
}
use finguard.Finance.Types.{VaultType, draft, paid, cancelled, same_status}
use finguard.Finance.Fold.Event.{EventPayload}
use finguard.Finance.Rows.{Invoice, Payment}
use finguard.Finance.Db.{Db, find_invoice, save_invoice, append_event, append_payment}
use finguard.Finance.Invoices.Projection.{project_invoice, project_row, derive_state}
use finguard.Finance.Invoices.Post.{maybe_snapshot_elim}
use finguard.Finance.Invoices.Issue.{
  create_invoice, send_invoice, resend_invoice, update_invoice, has_number,
}
use finguard.Finance.Invoices.Settle.{
  PaymentCreate, record_cash_payment, cash_row, mark_invoice_paid, settlement, post_payment,
  payment_event, Reconciled, reconciled_row, apply_reconciled_payment, settle_reconciled,
  enqueue_payment_receipt, mark_mpesa, mark_bank, violates_constraints,
}
use finguard.Finance.Invoices.Adjust.{apply_credit_note, cancel_invoice}
use finguard.Finance.Invoices.Preserve.Commands.{Command, execute, commit, Reach}
use finguard.Finance.Invoices.Backed.{IsBackedOnce, free, appended, unbacked, unique}

abbrev Keeps {ℓ} : {A : Type ℓ} → Result (A × Db) → Type 0
Keeps {A = A} = Ensures (λ (r : A × Db). IsBackedOnce r.1.payments)

project_invoice-Keeps :
    (inv : Invoice) (db : Db) → IsBackedOnce db.payments → Keeps (project_invoice inv db)
unfolding project_invoice
project_invoice-Keeps inv db h =
    Ensures-bind _ (λ s. Unit {0}) (derive_state inv.id db) _ (Ensures-any (derive_state inv.id db))
      (λ state u.
        maybe_snapshot_elim (λ d. IsBackedOnce d.payments) inv.id state
          (save_invoice (project_row inv state) db) h h)

post_payment-Keeps :
    (inv : Invoice) (p : Payment) (payload : EventPayload) (db : Db)
    → IsBackedOnce (db.payments ++ p ∷ [])
    → Keeps (post_payment inv p payload db)
unfolding post_payment
post_payment-Keeps inv p payload db h =
    let paid_db = append_payment p db in
    project_invoice-Keeps inv (append_event (payment_event p payload paid_db) paid_db) h

record_cash_payment-Keeps :
    (body : PaymentCreate) (user id : ℕ) (db : Db)
    → IsBackedOnce db.payments
    → Keeps (record_cash_payment body user id db)
unfolding record_cash_payment enqueue_payment_receipt
record_cash_payment-Keeps body user id db h =
    Ensures-or_raise _ (find_invoice body.invoice_id db) _ _ λ inv e.
      Ensures-raise_if _ (ltb_ℤ inv.balance_due body.amount) _ _ λ covered.
        Ensures-bind _ (λ (r : Invoice × Db). IsBackedOnce r.1.payments)
          (post_payment inv (cash_row body user id) _ db) _
          (post_payment-Keeps inv (cash_row body user id) _ db
            (unbacked (cash_row body user id) db.payments refl refl h))
          λ r k. k

mark_invoice_paid-Keeps :
    (i : ℕ) (user : Option ℕ) (vault : VaultType) (note : Option String) (id now : ℕ) (db : Db)
    → IsBackedOnce db.payments
    → Keeps (mark_invoice_paid i user vault note id now db)
unfolding mark_invoice_paid
mark_invoice_paid-Keeps i user vault note id now db h =
    Ensures-or_raise _ (find_invoice i db) _ _ λ inv e.
      Ensures-if _ (ltb_ℤ (pos 0) inv.balance_due) _ _
        (λ owing.
          post_payment-Keeps inv (settlement inv vault note user id now) _ db
            (unbacked (settlement inv vault note user id now) db.payments refl refl h))
        λ settled. h

marked :
    (b m : Option ℕ) (db : Db)
    → IsBackedOnce db.payments
    → IsBackedOnce (mark_bank b (mark_mpesa m db)).payments
marked none none db h = h
marked none (some x) db h = h
marked (some y) none db h = h
marked (some y) (some x) db h = h

apply_reconciled_payment-Keeps :
    (m : Reconciled) (id : ℕ) (db : Db)
    → IsBackedOnce db.payments
    → Keeps (apply_reconciled_payment m id db)
unfolding apply_reconciled_payment settle_reconciled enqueue_payment_receipt
apply_reconciled_payment-Keeps m id db h =
    Ensures-or_raise _ (find_invoice m.invoice_id db) _ _ λ inv e.
      Ensures-if _ (leb_ℤ (min_ℤ m.amount inv.balance_due) (pos 0)) _ _ (λ settled. h)
        λ owing.
          let p = reconciled_row m inv id in
          Ensures-raise_if _ (violates_constraints p db) _ _ λ fine.
            let fresh = unique p db fine in
            Ensures-bind _ (λ (r : Invoice × Db). IsBackedOnce r.1.payments)
              (post_payment inv p _ db) _
              (post_payment-Keeps inv p _ db
                (appended db.payments p (λ i. free p db.payments i fresh) h))
              λ r k. marked m.bank_line_id m.mpesa_trans_id r.1 k

apply_credit_note-Keeps :
    (i : ℕ) (amount : ℤ) (user : Option ℕ) (why : Option String) (now : ℕ) (db : Db)
    → IsBackedOnce db.payments
    → Keeps (apply_credit_note i amount user why now db)
unfolding apply_credit_note
apply_credit_note-Keeps i amount user why now db h =
    Ensures-raise_if _ (leb_ℤ amount (pos 0)) _ _ λ positive.
      Ensures-or_raise _ (find_invoice i db) _ _ λ inv e.
        Ensures-raise_if _ (same_status inv.status cancelled) _ _ λ live.
          Ensures-raise_if _ (ltb_ℤ inv.balance_due amount) _ _
            λ covered. project_invoice-Keeps inv (append_event _ db) h

cancel_invoice-Keeps :
    (i : ℕ) (user : Option ℕ) (why : Option String) (now : ℕ) (db : Db)
    → IsBackedOnce db.payments
    → Keeps (cancel_invoice i user why now db)
unfolding cancel_invoice
cancel_invoice-Keeps i user why now db h = Ensures-or_raise _ (find_invoice i db) _ _ λ inv e.
    Ensures-raise_if _ (same_status inv.status cancelled) _ _ λ live.
      Ensures-raise_if _ (same_status inv.status paid) _ _
        λ owing. project_invoice-Keeps inv (append_event _ db) h

committed {ℓ} :
    {A : Type ℓ} (r : Result (A × Db)) (db : Db)
    → IsBackedOnce db.payments
    → Keeps r
    → IsBackedOnce (commit r db).payments
committed (ok r) db h k = k
committed (err e) db h k = h

execute-IsBackedOnce :
    (c : Command) (db : Db) → IsBackedOnce db.payments → IsBackedOnce (execute c db).payments
unfolding execute create_invoice send_invoice resend_invoice update_invoice
execute-IsBackedOnce (Command.create body id now) db h =
    committed (create_invoice body id now db) db h
      (Ensures-raise_if _ (has_number body.invoice_number db.invoices) _ _ λ new. h)
execute-IsBackedOnce (Command.send i) db h = committed (send_invoice i db) db h (
    Ensures-or_raise _ (find_invoice i db) _ _
      λ inv e. Ensures-raise_if _ (not (same_status inv.status draft)) _ _ λ is_draft. h)
execute-IsBackedOnce (Command.resend i nonce) db h = committed (resend_invoice i nonce db) db h (
    Ensures-or_raise _ (find_invoice i db) _ _ λ inv e.
      Ensures-raise_if _ (same_status inv.status draft || same_status inv.status cancelled) _ _
        λ sent. h)
execute-IsBackedOnce (Command.update i body) db h =
    committed (update_invoice i body db) db h
      (Ensures-or_raise _ (find_invoice i db) _ _ λ inv e. h)
execute-IsBackedOnce (Command.settle i user vault note id now) db h =
    committed _ db h (mark_invoice_paid-Keeps i user vault note id now db h)
execute-IsBackedOnce (Command.pay_cash body user id) db h =
    committed _ db h (record_cash_payment-Keeps body user id db h)
execute-IsBackedOnce (Command.reconcile m id) db h =
    committed _ db h (apply_reconciled_payment-Keeps m id db h)
execute-IsBackedOnce (Command.credit i amount user why now) db h =
    committed _ db h (apply_credit_note-Keeps i amount user why now db h)
execute-IsBackedOnce (Command.cancel i user why now) db h =
    committed _ db h (cancel_invoice-Keeps i user why now db h)

-- If no M-Pesa transaction and no bank line is named by two payments, then this stays so through
-- any sequence of accepted requests to the invoice service, whether they return or raise.
pub Reach-IsBackedOnce :
    (locked : Bool) (start : Db) {db : Db}
    → IsBackedOnce start.payments
    → Reach locked start db
    → IsBackedOnce db.payments
Reach-IsBackedOnce locked start h Reach.here = h
Reach-IsBackedOnce locked start h (Reach.next c r a) =
    execute-IsBackedOnce c _ (Reach-IsBackedOnce locked start h r)
