-- ===== src/Finance/Invoices/Backed.antt =====
-- A payment that arrived pays once: what the unique columns of payments refuse.
pub mod Commands
pub mod Tests
use mathlib.Core.Path.{subst}
use finguard.Base.{
  ℕ, ◌+◌, ◌≤◌, ◌==◌, ◌≡◌, refl, sym, ap, ◌∙◌, Bool, true, false, not, ◌||◌, Option, none, some,
  List, [], ◌∷◌, ◌++◌, String, if◌then◌else◌, arith,
}
use finguard.Base.Int.{ℤ, pos, ltb_ℤ, leb_ℤ, min_ℤ}
use finguard.Core.Errors.{
  Result, ok, err, Ensures, Ensures-raise_if, Ensures-or_raise, Ensures-bind, Ensures-if,
  Ensures-any, Ensures-map,
}
use finguard.Finance.Types.{VaultType, draft, paid, cancelled, same_status}
use finguard.Finance.Fold.Event.{EventPayload}
use finguard.Finance.Rows.{Invoice, Payment}
use finguard.Finance.Db.{Db, find_invoice, save_invoice, append_event, append_payment}
use finguard.Finance.Invoices.Projection.{project_invoice, project_row, derive_state}
use finguard.Finance.Invoices.Post.{maybe_snapshot_elim}
use finguard.Finance.Invoices.Issue.{
  InvoiceCreate, create_invoice, send_invoice, resend_invoice, InvoiceUpdate, update_invoice,
  has_number,
}
use finguard.Finance.Invoices.Settle.{
  PaymentCreate, record_cash_payment, cash_row, mark_invoice_paid, settlement, post_payment,
  payment_event, Reconciled, reconciled_row, apply_reconciled_payment, settle_reconciled,
  enqueue_payment_receipt, mark_mpesa, mark_bank, same_value, is_duplicate, names_mpesa, names_bank,
  violates_constraints,
}
use finguard.Finance.Invoices.Adjust.{apply_credit_note, cancel_invoice, adjustment}
use finguard.Finance.Invoices.Preserve.Commands.{Command, execute, commit, Reach}

abbrev names : Option ℕ → ℕ → Bool
names none i = false
names (some a) i = a == i

-- How many payments name a settlement.
unfoldable pub count_backed : (Payment → Option ℕ) → ℕ → List Payment → ℕ
count_backed f i [] = 0
count_backed f i (p ∷ ps) = (if names (f p) i then 1 else 0) + count_backed f i ps

abbrev pub by_mpesa : Payment → Option ℕ
by_mpesa p = p.mpesa_trans_id

abbrev pub by_bank : Payment → Option ℕ
by_bank p = p.bank_line_id

-- An M-Pesa transaction pays once, and so does a bank line.
pub record IsBackedOnce (ps : List Payment) : Type 0 where
  pub once_mpesa : (i : ℕ) → count_backed by_mpesa i ps ≤ 1
  pub once_bank : (i : ℕ) → count_backed by_bank i ps ≤ 1

count_backed-append :
    (f : Payment → Option ℕ) (i : ℕ) (ps : List Payment) (p : Payment)
    → count_backed f i (ps ++ p ∷ []) ≡ count_backed f i ps + (if names (f p) i then 1 else 0)
unfolding count_backed
count_backed-append f i [] p = omega arith
count_backed-append f i (q ∷ ps) p = let rest = count_backed-append f i ps p in omega (arith, rest)

differs : (v u : Option ℕ) (i : ℕ) → same_value v u ≡ false → names u i ≡ true → names v i ≡ false
differs none u i h k = refl
differs (some a) none i h k = cc
differs (some a) (some b) i h k = ground arith

three : (a b c : Bool) → a || b || c ≡ false → (a ≡ false) × (b ≡ false) × (c ≡ false)
three a b c h = ground arith

pub free :
    (p : Payment) (ps : List Payment) (i : ℕ)
    → is_duplicate p ps ≡ false
    → (names p.mpesa_trans_id i ≡ true → count_backed by_mpesa i ps ≡ 0)
      × (names p.bank_line_id i ≡ true → count_backed by_bank i ps ≡ 0)
unfolding count_backed is_duplicate
free p [] i h = (λ k. refl, λ k. refl)
free p (q ∷ ps) i h =
    let (m, b, d) =
      three (same_value q.mpesa_trans_id p.mpesa_trans_id)
        (same_value q.bank_line_id p.bank_line_id) (is_duplicate p ps) h in
    let rest = free p ps i d in
    (
      λ k.
          let e = rest.0 k in
          rw (differs q.mpesa_trans_id p.mpesa_trans_id i m k) (omega (arith, e)),
      λ k. let e = rest.1 k in rw (differs q.bank_line_id p.bank_line_id i b k) (omega (arith, e)),
    )

once : (b : Bool) (n : ℕ) → n ≤ 1 → (b ≡ true → n ≡ 0) → n + (if b then 1 else 0) ≤ 1
once true n h f = let e = f refl in omega (arith, e)
once false n h f = omega (arith, h)

pub appended :
    (ps : List Payment) (p : Payment)
    → ((i : ℕ)
        → (names p.mpesa_trans_id i ≡ true → count_backed by_mpesa i ps ≡ 0)
          × (names p.bank_line_id i ≡ true → count_backed by_bank i ps ≡ 0))
    → IsBackedOnce ps
    → IsBackedOnce (ps ++ p ∷ [])
appended ps p f h = record {
  once_mpesa = λ i.
      rw (count_backed-append by_mpesa i ps p)
        (once (names p.mpesa_trans_id i) (count_backed by_mpesa i ps) (h.once_mpesa i) (f i).0);
  once_bank = λ i.
      rw (count_backed-append by_bank i ps p)
        (once (names p.bank_line_id i) (count_backed by_bank i ps) (h.once_bank i) (f i).1);
}

-- A payment without a settlement, by hand or in cash.
pub unbacked :
    (p : Payment) (ps : List Payment)
    → p.mpesa_trans_id ≡ none
    → p.bank_line_id ≡ none
    → IsBackedOnce ps
    → IsBackedOnce (ps ++ p ∷ [])
unbacked p ps e k =
    appended ps p (λ i. (λ t. unnamed p.mpesa_trans_id i e t, λ t. unnamed p.bank_line_id i k t))
  where
    unnamed : {A : Type 0} (o : Option ℕ) (i : ℕ) → o ≡ none → names o i ≡ true → A
    unnamed none i e t = cc
    unnamed (some a) i e t = cc

pub unique :
    (p : Payment) (db : Db) → violates_constraints p db ≡ false → is_duplicate p db.payments ≡ false
unfolding violates_constraints
unique p db h =
    (three (is_duplicate p db.payments) (not (names_mpesa p.mpesa_trans_id db.mpesa))
      (not (names_bank p.bank_line_id db.bank_lines)) h).0
