-- ===== src/Finance/Invoices/Preserve/Settle.antt =====
-- The settlement paths keep the invariant.
use finguard.Base.{ℕ, refl, sym, Bool, Option, none, some, String, arith}
use finguard.Base.Int.{ℤ, pos, ◌≤ℤ◌, ltb_ℤ, leb_ℤ, min_ℤ, ltb→le_ℤ, ltb→lt_ℤ, leb→lt_ℤ}
use finguard.Base.Table.{find_row-key}
use finguard.Core.Errors.{Ensures, Ensures-raise_if, Ensures-or_raise, Ensures-bind, Ensures-if}
use finguard.Finance.Types.{VaultType}
use finguard.Finance.Rows.{Invoice}
use finguard.Finance.Db.{Db, find_invoice}
use finguard.Finance.Invoices.Settle.{
  post_payment, PaymentCreate, record_cash_payment, cash_row, mark_invoice_paid, settlement,
  Reconciled, reconciled_row, violates_constraints, apply_reconciled_payment, settle_reconciled,
  enqueue_payment_receipt, mark_mpesa, mark_bank,
}
use finguard.Finance.Invoices.Invariant.{IsTracked, Inv}
use finguard.Finance.Invoices.Preserve.Posting.{found, post_payment-Inv}

-- Recording cash keeps the invariant, for a positive amount as the request schema demands.
pub record_cash_payment-Inv :
    (locked : Bool) (body : PaymentCreate) (user payment_id : ℕ) (db : Db)
    → pos 0 ≤ℤ body.amount
    → Inv locked db
    → Ensures (λ r. Inv locked r.1) (record_cash_payment body user payment_id db)
unfolding record_cash_payment enqueue_payment_receipt
record_cash_payment-Inv locked body user payment_id db lo h =
    Ensures-or_raise _ (find_invoice body.invoice_id db) _ _ λ inv e.
      Ensures-raise_if _ (ltb_ℤ inv.balance_due body.amount) _ _ λ covered.
        Ensures-bind _ (λ r. Inv locked r.1) (post_payment inv (cash_row body user payment_id) _ db)
          _
          (post_payment-Inv locked db inv (cash_row body user payment_id) _ h
            (found locked body.invoice_id inv h e)
            (sym (find_row-key (λ (r : Invoice). r.id) body.invoice_id db.invoices inv e)) lo
            (ltb→le_ℤ inv.balance_due body.amount covered))
          λ r k. record { tracked = k.tracked }

-- Settling the balance by hand keeps the invariant.
pub mark_invoice_paid-Inv :
    (locked : Bool) (i : ℕ) (user : Option ℕ) (vault : VaultType) (note : Option String)
    (payment_id now : ℕ) (db : Db)
    → Inv locked db
    → Ensures (λ r. Inv locked r.1) (mark_invoice_paid i user vault note payment_id now db)
unfolding mark_invoice_paid
mark_invoice_paid-Inv locked i user vault note payment_id now db h =
    Ensures-or_raise _ (find_invoice i db) _ _ λ inv e.
      Ensures-if _ (ltb_ℤ (pos 0) inv.balance_due) _ _
        (λ owing.
          post_payment-Inv locked db inv (settlement inv vault note user payment_id now) _ h
            (found locked i inv h e) refl (omega (arith, ltb→lt_ℤ (pos 0) inv.balance_due owing))
            (omega arith))
        λ settled. h

min_le_right : (a b : ℤ) → min_ℤ a b ≤ℤ b
unfolding min_ℤ
min_le_right a b = ground arith

mark-IsTracked :
    (locked : Bool) (b m : Option ℕ) (db : Db) (j : ℕ)
    → IsTracked locked db j
    → IsTracked locked (mark_bank b (mark_mpesa m db)) j
mark-IsTracked locked none none db j h = h
mark-IsTracked locked none (some x) db j h = h
mark-IsTracked locked (some y) none db j h = h
mark-IsTracked locked (some y) (some x) db j h = h

-- A reconciled settlement is clamped to the balance, so any amount keeps the invariant.
pub apply_reconciled_payment-Inv :
    (locked : Bool) (m : Reconciled) (payment_id : ℕ) (db : Db)
    → Inv locked db
    → Ensures (λ r. Inv locked r.1) (apply_reconciled_payment m payment_id db)
unfolding apply_reconciled_payment settle_reconciled enqueue_payment_receipt
apply_reconciled_payment-Inv locked m payment_id db h =
    Ensures-or_raise _ (find_invoice m.invoice_id db) _ _ λ inv e.
      Ensures-if _ (leb_ℤ (min_ℤ m.amount inv.balance_due) (pos 0)) _ _ (λ settled. h)
        λ owing.
          Ensures-raise_if _ (violates_constraints (reconciled_row m inv payment_id) db) _ _ λ fine.
            Ensures-bind _ (λ r. Inv locked r.1)
              (post_payment inv (reconciled_row m inv payment_id) _ db) _
              (post_payment-Inv locked db inv (reconciled_row m inv payment_id) _ h
                (found locked m.invoice_id inv h e) refl
                (omega (arith, leb→lt_ℤ (min_ℤ m.amount inv.balance_due) (pos 0) owing))
                (min_le_right m.amount inv.balance_due))
              λ r k. record {
                tracked =
                    λ j. mark-IsTracked locked m.bank_line_id m.mpesa_trans_id r.1 j (k.tracked j);
              }
