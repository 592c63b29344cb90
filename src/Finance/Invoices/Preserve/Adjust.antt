-- ===== src/Finance/Invoices/Preserve/Adjust.antt =====
-- Credit notes and cancellation keep the invariant.
use finguard.Base.{ℕ, inl, inr, refl, Bool, Option, String, arith}
use finguard.Base.Int.{ℤ, pos, ltb_ℤ, leb_ℤ, ltb→le_ℤ, leb→lt_ℤ}
use finguard.Core.Errors.{Ensures, Ensures-raise_if, Ensures-or_raise}
use finguard.Finance.Types.{cancelled, paid, same_status}
use finguard.Finance.Db.{Db, find_invoice, next_sequence}
use finguard.Finance.Invoices.Adjust.{apply_credit_note, cancel_invoice}
use finguard.Finance.Invoices.Invariant.{Inv}
use finguard.Finance.Invoices.Preserve.Posting.{found, adjust-Inv}

-- A credit note keeps the invariant.
pub apply_credit_note-Inv :
    (locked : Bool) (i : ℕ) (amount : ℤ) (user : Option ℕ) (why : Option String) (now : ℕ) (db : Db)
    → Inv locked db
    → Ensures (λ r. Inv locked r.1) (apply_credit_note i amount user why now db)
unfolding apply_credit_note next_sequence
apply_credit_note-Inv locked i amount user why now db h =
    Ensures-raise_if _ (leb_ℤ amount (pos 0)) _ _ λ positive.
      Ensures-or_raise _ (find_invoice i db) _ _ λ inv e.
        Ensures-raise_if _ (same_status inv.status cancelled) _ _ λ open_.
          Ensures-raise_if _ (ltb_ℤ inv.balance_due amount) _ _ λ covered.
            let f = found locked i inv h e in
            adjust-Inv locked db inv _ h f refl refl (inl refl) (
              omega (arith, leb→lt_ℤ amount (pos 0) positive),
              rw (← f.projects.due) (ltb→le_ℤ inv.balance_due amount covered),
            )

-- Cancelling keeps the invariant.
pub cancel_invoice-Inv :
    (locked : Bool) (i : ℕ) (user : Option ℕ) (why : Option String) (now : ℕ) (db : Db)
    → Inv locked db
    → Ensures (λ r. Inv locked r.1) (cancel_invoice i user why now db)
unfolding cancel_invoice next_sequence
cancel_invoice-Inv locked i user why now db h = Ensures-or_raise _ (find_invoice i db) _ _ λ inv e.
    Ensures-raise_if _ (same_status inv.status cancelled) _ _ λ open_.
      Ensures-raise_if _ (same_status inv.status paid) _ _
        λ unpaid. adjust-Inv locked db inv _ h (found locked i inv h e) refl refl (inr refl) tt
