-- ===== src/Finance/Vaults/Balances.antt =====
-- What a transfer does to the balances.
use finguard.Base.{
  ℕ, ◌≡◌, inl, inr, refl, ap, ◌∙◌, Bool, true, false, Option, none, some, List, [], ◌∷◌, ◌++◌,
  if◌then◌else◌, arith, Bool-cases,
}
use finguard.Base.Int.{
  ℤ, pos, ◌+ℤ◌, ◌-ℤ◌, ◌≤ℤ◌, ◌<ℤ◌, ltb_ℤ, sum_by, sum_by-append, int_laws, ltb→le_ℤ, eq_of_parts,
  le→ltb_ℤ, lt→ltb_ℤ, le→ltb_ℤ, lt→ltb_ℤ,
}
use finguard.Base.Table.{select, select-snoc}
use finguard.Core.Errors.{err, Returns}
use finguard.Core.Errors.AppError.{unprocessable}
use finguard.Finance.Types.{VaultType, mpesa, cash, bank, same_vault}
use finguard.Finance.Rows.{Expense, VaultTransfer, OutboxEvent}
use finguard.Finance.Db.{Db, add_outbox}
use finguard.Finance.Vaults.{
  payments_in, is_signed_off, expenses_out, transfers_in, transfers_out, balance_of, add_balance,
  get_vault_balances, balance_in, VaultTransferCreate, transfer_row, fee_expense, transfer_event,
  store_transfer, create_vault_transfer,
}

-- A vault's entry in the report is its balance.
pub balance_in-get_vault_balances :
    (v : VaultType) (db : Db) → balance_in v (get_vault_balances db).balances ≡ balance_of v db
unfolding balance_in get_vault_balances add_balance
balance_in-get_vault_balances mpesa db = refl
balance_in-get_vault_balances cash db = refl
balance_in-get_vault_balances bank db = refl

abbrev counted : Bool → ℤ → ℤ
counted b n = if b then n else pos 0

-- A total over one more row.
sum-snoc {ℓ} :
    {A : Type ℓ} (f : A → ℤ) (p : A → Bool) (xs : List A) (x : A)
    → sum_by f (select p (xs ++ x ∷ [])) ≡ sum_by f (select p xs) +ℤ counted (p x) (f x)
sum-snoc f p xs x = ap (sum_by f) (select-snoc p xs x) ∙ go (p x)
  where
    go :
        (b : Bool)
        → sum_by f (if b then select p xs ++ x ∷ [] else select p xs)
          ≡ sum_by f (select p xs) +ℤ counted b (f x)
    go true = sum_by-append f (select p xs) (x ∷ []) ∙ omega int_laws
    go false = omega int_laws

-- The change of a balance: in, out, and the fee.
abbrev change : VaultTransferCreate → VaultType → ℤ
change body v =
    counted (same_vault body.to_vault v) body.amount
    -ℤ counted (same_vault body.from_vault v) body.fee
    -ℤ counted (same_vault body.from_vault v) body.amount

regroup :
    (p i e o x y z : ℤ) → p +ℤ (i +ℤ x) -ℤ (e +ℤ y) -ℤ (o +ℤ z) ≡ p +ℤ i -ℤ e -ℤ o +ℤ (x -ℤ y -ℤ z)
regroup p i e o x y z = omega int_laws

fee_left : (b : Bool) (fee : ℤ) → fee ≡ pos 0 → (n : ℤ) → n ≡ n +ℤ counted b fee
fee_left true fee h n = rw h (omega int_laws)
fee_left false fee h n = omega int_laws

store_transfer-balance :
    (body : VaultTransferCreate) (user id fee_id now : ℕ) (db : Db) (v : VaultType)
    → pos 0 ≤ℤ body.fee
    → balance_of v (store_transfer body user id fee_id now db).1 ≡ balance_of v db +ℤ change body v
unfolding store_transfer balance_of payments_in expenses_out transfers_in transfers_out
store_transfer-balance body user id fee_id now db v lo =
    let row = λ (link : Option ℕ). transfer_row body user id link in
    let into = λ (link : Option ℕ).
      sum-snoc (λ (t : VaultTransfer). t.amount) (λ (t : VaultTransfer). same_vault t.to_vault v)
        db.transfers (row link) in
    let out = λ (link : Option ℕ).
      sum-snoc (λ (t : VaultTransfer). t.amount) (λ (t : VaultTransfer). same_vault t.from_vault v)
        db.transfers (row link) in
    let total =
      regroup (payments_in v db) (transfers_in v db) (expenses_out v db) (transfers_out v db)
        (counted (same_vault body.to_vault v) body.amount)
        (counted (same_vault body.from_vault v) body.fee)
        (counted (same_vault body.from_vault v) body.amount) in
    elim (Bool-cases (ltb_ℤ (pos 0) body.fee)) [
      | inl k ↦
          let fees = select-snoc is_signed_off db.expenses (fee_expense body fee_id now) in
          let spent =
            sum-snoc (λ (e : Expense). e.amount) (λ (e : Expense). same_vault e.vault v)
              (select is_signed_off db.expenses) (fee_expense body fee_id now) in
          rw (k, fees, spent, into (some fee_id), out (some fee_id)) total
      | inr k ↦
          let free : body.fee ≡ pos 0 =
            eq_of_parts body.fee (pos 0) (omega (arith, lo, ltb→le_ℤ (pos 0) body.fee k)) in
          rw (k, into none, out none)
            (ap
                (λ n.
                  payments_in v db
                  +ℤ (transfers_in v db +ℤ counted (same_vault body.to_vault v) body.amount)
                  -ℤ n
                  -ℤ (transfers_out v db +ℤ counted (same_vault body.from_vault v) body.amount))
                (fee_left (same_vault body.from_vault v) body.fee free (expenses_out v db))
              ∙ total)
    ]

-- What a transfer has done to the vaults.
pub record IsTransferred (body : VaultTransferCreate) (db db' : Db) : Type 0 where
  pub source :
      balance_of body.from_vault db' ≡ balance_of body.from_vault db -ℤ body.fee -ℤ body.amount
  pub target : balance_of body.to_vault db' ≡ balance_of body.to_vault db +ℤ body.amount
  pub others :
      (v : VaultType)
      → same_vault body.from_vault v ≡ false
      → same_vault body.to_vault v ≡ false
      → balance_of v db' ≡ balance_of v db
  pub solvent : pos 0 ≤ℤ balance_of body.from_vault db'
  pub total : (get_vault_balances db').total ≡ (get_vault_balances db).total -ℤ body.fee

abbrev changes : VaultType → VaultType → ℤ → ℤ → VaultType → ℤ
changes from to amount fee v =
    counted (same_vault to v) amount
    -ℤ counted (same_vault from v) fee
    -ℤ counted (same_vault from v) amount

total_change :
    (from to : VaultType) (amount fee x y z : ℤ)
    → same_vault from to ≡ false
    → pos 0
        +ℤ (x +ℤ changes from to amount fee mpesa)
        +ℤ (y +ℤ changes from to amount fee cash)
        +ℤ (z +ℤ changes from to amount fee bank)
      ≡ pos 0 +ℤ x +ℤ y +ℤ z -ℤ fee
total_change mpesa cash amount fee x y z h = omega int_laws
total_change mpesa bank amount fee x y z h = omega int_laws
total_change cash mpesa amount fee x y z h = omega int_laws
total_change cash bank amount fee x y z h = omega int_laws
total_change bank mpesa amount fee x y z h = omega int_laws
total_change bank cash amount fee x y z h = omega int_laws
total_change mpesa mpesa amount fee x y z h = cc
total_change cash cash amount fee x y z h = cc
total_change bank bank amount fee x y z h = cc

same_vault_refl : (v : VaultType) → same_vault v v ≡ true
same_vault_refl mpesa = refl
same_vault_refl cash = refl
same_vault_refl bank = refl

same_vault-sym : (v w : VaultType) → same_vault v w ≡ false → same_vault w v ≡ false
same_vault-sym v w h = ground arith

leaves_from : (n a f : ℤ) → n +ℤ (pos 0 -ℤ f -ℤ a) ≡ n -ℤ f -ℤ a
leaves_from n a f = omega int_laws

leaves_to : (n a : ℤ) → n +ℤ (a -ℤ pos 0 -ℤ pos 0) ≡ n +ℤ a
leaves_to n a = omega int_laws

leaves_other : (n : ℤ) → n +ℤ (pos 0 -ℤ pos 0 -ℤ pos 0) ≡ n
leaves_other n = omega int_laws

module _ (body : VaultTransferCreate) (db db' : Db)
    (apart : same_vault body.from_vault body.to_vault ≡ false)
    (moves : (v : VaultType) → balance_of v db' ≡ balance_of v db +ℤ change body v)
    (enough : body.amount +ℤ body.fee ≤ℤ balance_of body.from_vault db) where
  source_lem :
      balance_of body.from_vault db' ≡ balance_of body.from_vault db -ℤ body.fee -ℤ body.amount
  source_lem =
      moves body.from_vault
      ∙ rw (same_vault_refl body.from_vault, same_vault-sym body.from_vault body.to_vault apart)
          (leaves_from (balance_of body.from_vault db) body.amount body.fee)

  moves-IsTransferred : IsTransferred body db db'
  unfolding get_vault_balances add_balance
  moves-IsTransferred = record {
    source = source_lem;
    target =
        moves body.to_vault
        ∙ rw (same_vault_refl body.to_vault, apart)
            (leaves_to (balance_of body.to_vault db) body.amount);
    others = λ v a b. moves v ∙ rw (a, b) (leaves_other (balance_of v db));
    solvent = rw source_lem (omega (int_laws, enough));
    total =
        rw (moves mpesa, moves cash, moves bank)
          (total_change body.from_vault body.to_vault body.amount body.fee (balance_of mpesa db)
            (balance_of cash db) (balance_of bank db) apart);
  }

balance_of-add_outbox :
    (v : VaultType) (e : OutboxEvent) (db : Db) → balance_of v (add_outbox e db) ≡ balance_of v db
unfolding balance_of payments_in expenses_out transfers_in transfers_out
balance_of-add_outbox v e db = refl

-- A transfer between two different vaults with a fee that is not negative, whose amount and fee
-- the source vault holds, is accepted: the source loses amount and fee and is not negative, the
-- target gains the amount, no other vault changes, and the total over all vaults falls by the
-- fee alone.
pub create_vault_transfer-IsTransferred :
    (body : VaultTransferCreate) (user id fee_id now : ℕ) (db : Db)
    → pos 0 ≤ℤ body.fee
    → same_vault body.from_vault body.to_vault ≡ false
    → body.amount +ℤ body.fee ≤ℤ balance_of body.from_vault db
    → Returns (λ r. IsTransferred body db r.1) (create_vault_transfer body user id fee_id now db)
unfolding create_vault_transfer
create_vault_transfer-IsTransferred body user id fee_id now db lo apart enough =
    rw
      (
        balance_in-get_vault_balances body.from_vault db,
        le→ltb_ℤ (balance_of body.from_vault db) (body.amount +ℤ body.fee) enough,
      )
      (moves-IsTransferred body db _ apart
        (λ v.
          balance_of-add_outbox v (transfer_event body user id)
            (store_transfer body user id fee_id now db).1
          ∙ store_transfer-balance body user id fee_id now db v lo)
        enough)

-- A transfer whose amount and fee exceed the balance of the source vault is refused as
-- unprocessable.
create_vault_transfer-refused :
    (body : VaultTransferCreate) (user id fee_id now : ℕ) (db : Db)
    → balance_of body.from_vault db <ℤ body.amount +ℤ body.fee
    → create_vault_transfer body user id fee_id now db ≡ err unprocessable
unfolding create_vault_transfer
create_vault_transfer-refused body user id fee_id now db short =
    rw
      (
        balance_in-get_vault_balances body.from_vault db,
        lt→ltb_ℤ (balance_of body.from_vault db) (body.amount +ℤ body.fee) short,
      )
      refl
