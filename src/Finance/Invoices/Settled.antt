-- ===== src/Finance/Invoices/Settled.antt =====
-- What the settlement operations return, branch by branch.
use finguard.Base.{ℕ, ◌≡◌, refl, sym, Bool, true, false, Option, some, String, [], ◌∷◌, ◌++◌, arith}
use finguard.Base.Int.{ℤ, pos, ◌+ℤ◌, ◌-ℤ◌, ◌≤ℤ◌, ◌<ℤ◌, int_laws, le→ltb_ℤ, lt→ltb_ℤ, lt→leb_ℤ}
use finguard.Base.Table.{find_row-key}
use finguard.Core.Errors.{Returns, Returns-map}
use finguard.Finance.Types.{VaultType, cash, paid, cancelled}
use finguard.Finance.Fold.Event.{EventPayload}
use finguard.Finance.Fold.Replay.{replay}
use finguard.Finance.Rows.{Invoice, Payment}
use finguard.Finance.Db.{Db, find_invoice, events_of, payments_of, snapshots_of}
use finguard.Finance.Invoices.Settle.{
  PaymentCreate, record_cash_payment, cash_row, mark_invoice_paid, settlement,
  enqueue_payment_receipt,
}
use finguard.Finance.Invoices.Invariant.{Inv, Projects}
use finguard.Finance.Invoices.Outcomes.{IsPaid, post_payment_lem}
use finguard.Finance.Invoices.Preserve.Posting.{Found, found}

-- A payment that changed nothing but the list of payments.
pub record IsIgnored (db : Db) (inv : Invoice) (p : Payment) (db' : Db) : Type 0 where
  pub row : Invoice
  pub is_row : find_invoice inv.id db' ≡ some row
  pub payments : payments_of inv.id db' ≡ payments_of inv.id db ++ p ∷ []
  pub amount_paid : row.amount_paid ≡ inv.amount_paid
  pub balance_due : row.balance_due ≡ inv.balance_due
  pub status : row.status ≡ cancelled

IsIgnored-of_IsPaid :
    {locked : Bool} (db : Db) (inv : Invoice) (amount : ℤ) (p : Payment) (db' : Db)
    → Projects locked inv (events_of inv.id db) (snapshots_of inv.id db)
    → (replay (events_of inv.id db)).is_cancelled ≡ true
    → IsPaid db inv amount p db'
    → IsIgnored db inv p db'
IsIgnored-of_IsPaid db inv amount p db' proj c q =
    let same : q.row.amount_paid ≡ inv.amount_paid = rw c at q.amount_paid in
    record {
      row = q.row;
      is_row = q.is_row;
      payments = q.payments;
      amount_paid = same;
      balance_due = rw (q.balance_due, same, proj.due, proj.total, proj.credited, proj.paid) refl;
      status = rw c at q.status;
    }

module _ (locked : Bool) (db : Db) (inv : Invoice) (h : Inv locked db) (body : PaymentCreate)
    (user payment_id : ℕ) (e : find_invoice body.invoice_id db ≡ some inv)
    (lo : pos 0 ≤ℤ body.amount) (hi : body.amount ≤ℤ inv.balance_due) where
  same_id : body.invoice_id ≡ inv.id
  same_id = sym (find_row-key (λ (r : Invoice). r.id) body.invoice_id db.invoices inv e)

  -- With the invariant, a cash payment on an invoice that is found, not negative and at most the
  -- balance, is accepted: it appends its row to the payments of the invoice, and unless the log
  -- holds a cancellation it adds its amount to the paid amount; the balance is what is left, and
  -- the status is the one that the events derive.
  pub record_cash_payment-IsPaid :
      Returns (λ r. IsPaid db inv body.amount r.0 r.1) (record_cash_payment body user payment_id db)
  unfolding record_cash_payment enqueue_payment_receipt
  record_cash_payment-IsPaid =
      let (r, posted, p, _) =
        post_payment_lem locked db inv (cash_row body user payment_id)
          (EventPayload.cash_payment payment_id cash body.reference_note user)
          (found locked body.invoice_id inv h e) same_id lo hi in
      rw (e, le→ltb_ℤ inv.balance_due body.amount hi, posted)
        (record {
          row = p.row;
          is_row = p.is_row;
          amount_paid = p.amount_paid;
          balance_due = p.balance_due;
          status = p.status;
          payments = p.payments;
        })

  -- With the invariant, a cash payment of at most the balance on an invoice whose log holds a
  -- cancellation is accepted too: its payment row is stored, while the paid amount and the
  -- balance of the invoice stay as they were and its status is cancelled.
  pub record_cash_payment-on_cancelled :
      (replay (events_of inv.id db)).is_cancelled ≡ true
      → Returns (λ r. IsIgnored db inv r.0 r.1) (record_cash_payment body user payment_id db)
  record_cash_payment-on_cancelled c =
      Returns-map _ _ (record_cash_payment body user payment_id db)
        (λ r.
          IsIgnored-of_IsPaid db inv body.amount r.0 r.1
            (found locked body.invoice_id inv h e).projects c)
        record_cash_payment-IsPaid

nothing_left : (t c p : ℤ) → t -ℤ c -ℤ (p +ℤ (t -ℤ c -ℤ p)) ≡ pos 0
nothing_left t c p = omega int_laws

-- What a settlement leaves of the row.
pub record IsSettled (db : Db) (i : ℕ) : Type 0 where
  pub row : Invoice
  pub is_row : find_invoice i db ≡ some row
  pub settled : row.balance_due ≡ pos 0
  pub status : row.status ≡ paid

module _ (locked : Bool) (db : Db) (inv : Invoice) (h : Inv locked db) (i : ℕ) (user : Option ℕ)
    (vault : VaultType) (note : Option String) (payment_id now : ℕ)
    (e : find_invoice i db ≡ some inv) (live : (replay (events_of inv.id db)).is_cancelled ≡ false)
    (owing : pos 0 <ℤ inv.balance_due) where
  f : Found locked db inv
  f = found locked i inv h e

  some_paid : pos 0 <ℤ inv.amount_paid +ℤ inv.balance_due
  some_paid =
      let paid_before : pos 0 ≤ℤ inv.amount_paid = rw f.projects.paid f.projects.solvent.paid in
      omega (int_laws, paid_before, owing)

  settles : (p : Payment) (db' : Db) → IsPaid db inv inv.balance_due p db' → IsSettled db' inv.id
  settles p db' q =
      let added : q.row.amount_paid ≡ inv.amount_paid +ℤ inv.balance_due =
        rw live at q.amount_paid in
      let zero_left : q.row.balance_due ≡ pos 0 =
        rw
          (
            q.balance_due, added, f.projects.due, f.projects.total, f.projects.credited,
            f.projects.paid,
          )
          (nothing_left (replay (events_of inv.id db)).total (replay (events_of inv.id db)).credited
            (replay (events_of inv.id db)).amount_paid) in
      record {
        row = q.row;
        is_row = q.is_row;
        settled = zero_left;
        status =
            rw
              (
                live,
                zero_left,
                added,
                lt→leb_ℤ (inv.amount_paid +ℤ inv.balance_due) (pos 0) some_paid,
              )
              at q.status;
      }

  -- With the invariant, marking as paid an invoice that is found, owes something and was not
  -- cancelled returns, and leaves a balance of zero and the status paid.
  pub mark_invoice_paid-settles :
      Returns (λ r. IsSettled r.1 inv.id) (mark_invoice_paid i user vault note payment_id now db)
  unfolding mark_invoice_paid
  mark_invoice_paid-settles =
      let (r, posted, p, _) =
        post_payment_lem locked db inv (settlement inv vault note user payment_id now)
          (EventPayload.manual_settlement payment_id vault) f refl (omega (arith, owing))
          (omega arith) in
      rw (e, lt→ltb_ℤ (pos 0) inv.balance_due owing, posted) (settles _ r.1 p)
