-- ===== src/Finance/Bank/References.antt =====
-- Which references the stored lines of an import have.
use text.Mathlib.Text.{◌==◌ as str_eq}
use text.Mathlib.TextPositions.{eq_refl}
use mathlib.Core.Path.{subst}
use mathlib.Core.List.{append-nil}
use finguard.Base.{
  ℕ, ◌+◌, ◌≡◌, inl, inr, refl, sym, ap, Bool, true, false, ◌||◌, Option, List, [], ◌∷◌, ◌++◌,
  String, Bool-cases, arith,
}
use finguard.Base.Text.{str_eq→eq}
use finguard.Finance.Rows.{BankStatementLine}
use finguard.Finance.Db.{Db}
use finguard.Finance.Bank.{
  BankStatementLineImport, mem_ref, refs_of, import_refs, existing_external_refs, new_rows,
  store_rows,
}

pub or-right : (a b : Bool) → b ≡ true → (a || b) ≡ true
or-right a b h = ground arith

pub or-skip : (a c : Bool) → (a || false || c) ≡ true → (a || c) ≡ true
or-skip a c h = ground arith

pub differs : (a b : String) (P : String → Bool) → P a ≡ false → P b ≡ true → str_eq a b ≡ false
differs a b P h k = elim (Bool-cases (str_eq a b)) [
  | inl e ↦ absurd (ap P (str_eq→eq a b e))
  | inr e ↦ e
]
  where
    absurd : P a ≡ P b → str_eq a b ≡ false
    absurd e = cc

pub mem_ref-append :
    (r : String) (xs ys : List String) → mem_ref r (xs ++ ys) ≡ (mem_ref r xs || mem_ref r ys)
unfolding mem_ref
mem_ref-append r [] ys = refl
mem_ref-append r (x ∷ xs) ys = ground (arith, mem_ref-append r xs ys)

refs_of-append : (xs ys : List BankStatementLine) → refs_of (xs ++ ys) ≡ refs_of xs ++ refs_of ys
refs_of-append [] ys = refl
refs_of-append (x ∷ xs) ys = ap (λ rs. x.external_ref ∷ rs) (refs_of-append xs ys)

-- A requested reference is found exactly if the table has it.
pub mem_ref-existing :
    (r : String) (refs : List String) (table : List BankStatementLine)
    → mem_ref r refs ≡ true
    → mem_ref r (existing_external_refs refs table) ≡ mem_ref r (refs_of table)
unfolding mem_ref existing_external_refs
mem_ref-existing r refs [] h = refl
mem_ref-existing r refs (l ∷ table) h = elim (Bool-cases (str_eq l.external_ref r)) [
  | inl same ↦
      let there : mem_ref l.external_ref refs ≡ true =
        subst (λ s. mem_ref s refs ≡ true) (sym (str_eq→eq l.external_ref r same)) h in
      rw (there, same) refl
  | inr other ↦ ground (arith, mem_ref-existing r refs table h, other)
]

-- Every line of the request is in the table, was seen, or is new.
pub new_rows-cover :
    (by : Option ℕ) (fresh : ℕ → ℕ) (had : List String) (lines : List BankStatementLineImport)
    (seen : List String) (n : ℕ) (r : String)
    → mem_ref r (import_refs lines) ≡ true
    → (mem_ref r had || mem_ref r seen || mem_ref r (refs_of (new_rows by fresh had lines seen n)))
      ≡ true
unfolding mem_ref new_rows
new_rows-cover by fresh had [] seen n r h = cc
new_rows-cover by fresh had (l ∷ lines) seen n r h =
    let skipped = new_rows-cover by fresh had lines seen n r in
    let kept = new_rows-cover by fresh had lines (l.external_ref ∷ seen) (n + 1) r in
    elim (Bool-cases (str_eq l.external_ref r)) [
      | inl c ↦
          let same : l.external_ref ≡ r = str_eq→eq l.external_ref r c in
          elim (Bool-cases (mem_ref r had)) [
            | inl a ↦ rw a refl
            | inr a ↦ elim (Bool-cases (mem_ref r seen)) [
              | inl b ↦ rw (a, b) refl
              | inr b ↦ rw (same, a, b, eq_refl r) refl
            ]
          ]
      | inr c ↦ elim (Bool-cases (mem_ref l.external_ref had || mem_ref l.external_ref seen)) [
        | inl a ↦ rw a (skipped (rw c at h))
        | inr a ↦ rw (a, c) (rw c at (kept (rw c at h)))
      ]
    ]

-- When every reference of the request is in the table, nothing is new.
pub new_rows-none :
    (by : Option ℕ) (fresh : ℕ → ℕ) (had : List String) (lines : List BankStatementLineImport)
    (seen : List String) (n : ℕ)
    → ((r : String) → mem_ref r (import_refs lines) ≡ true → mem_ref r had ≡ true)
    → new_rows by fresh had lines seen n ≡ []
unfolding mem_ref new_rows
new_rows-none by fresh had [] seen n h = refl
new_rows-none by fresh had (l ∷ lines) seen n h =
    let here = h l.external_ref (rw (eq_refl l.external_ref) refl) in
    let rest : (r : String) → mem_ref r (import_refs lines) ≡ true → mem_ref r had ≡ true =
      λ r k. h r (or-right (str_eq l.external_ref r) _ k) in
    rw here (new_rows-none by fresh had lines seen n rest)

pub store_rows-refs :
    (by : Option ℕ) (rows : List BankStatementLine) (db : Db)
    → refs_of (store_rows by rows db).1.bank_lines ≡ refs_of db.bank_lines ++ refs_of rows
unfolding store_rows
store_rows-refs by [] db = sym (append-nil (refs_of db.bank_lines))
store_rows-refs by (r ∷ rows) db = refs_of-append db.bank_lines (r ∷ rows)

-- An import without new rows does nothing.
