-- ===== src/Finance/Bank/Import.antt =====
-- Importing a statement twice imports it once, and no two lines share their reference.
use text.Mathlib.Text.{◌==◌ as str_eq}
use text.Mathlib.TextPositions.{eq_refl}
use mathlib.Core.Path.{subst}
use finguard.Base.{
  ℕ, ◌+◌, ◌≡◌, inl, inr, refl, sym, ap, ◌∙◌, true, false, ◌||◌, Option, List, [], ◌∷◌, ◌++◌, String,
  Bool-cases, arith,
}
use finguard.Finance.Db.{Db}
use finguard.Finance.Bank.{
  BankStatementLineImport, mem_ref, refs_of, import_refs, existing_external_refs, new_rows,
  store_rows, import_bank_statement_lines,
}
use finguard.Finance.Bank.References.{
  or-right, or-skip, differs, mem_ref-append, mem_ref-existing, new_rows-cover, new_rows-none,
  store_rows-refs,
}

import_none :
    (lines : List BankStatementLineImport) (by : Option ℕ) (fresh : ℕ → ℕ) (db : Db)
    → new_rows by fresh (existing_external_refs (import_refs lines) db.bank_lines) lines [] 0 ≡ []
    → import_bank_statement_lines lines by fresh db ≡ ([], db)
unfolding import_bank_statement_lines store_rows
import_none lines by fresh db h = ap (λ rows. store_rows by rows db) h

module _ (lines : List BankStatementLineImport) (by : Option ℕ) (fresh : ℕ → ℕ) (db : Db) where
  refs : List String
  refs = import_refs lines

  abbrev pub imported : Db
  imported = (import_bank_statement_lines lines by fresh db).1

  -- After an import the table has every reference of the request.
  imported-covers :
      (r : String) → mem_ref r refs ≡ true → mem_ref r (refs_of imported.bank_lines) ≡ true
  unfolding import_bank_statement_lines refs mem_ref
  imported-covers r h =
      let had = existing_external_refs (import_refs lines) db.bank_lines in
      let rows = new_rows by fresh had lines [] 0 in
      ap (mem_ref r) (store_rows-refs by rows db)
      ∙ mem_ref-append r (refs_of db.bank_lines) (refs_of rows)
      ∙ or-skip (mem_ref r (refs_of db.bank_lines)) (mem_ref r (refs_of rows)) (
          rw (mem_ref-existing r (import_refs lines) db.bank_lines h) at
            (new_rows-cover by fresh had lines [] 0 r h))

  none_new :
      (later : ℕ → ℕ)
      → new_rows by later (existing_external_refs refs imported.bank_lines) lines [] 0 ≡ []
  unfolding refs
  none_new later =
      new_rows-none by later (existing_external_refs refs imported.bank_lines) lines [] 0
        (λ r k. mem_ref-existing r refs imported.bank_lines k ∙ imported-covers r k)

  -- Importing the lines of a statement again right after their import creates no line and leaves
  -- the database as it is.
  pub import_bank_statement_lines-twice :
      (later : ℕ → ℕ) → import_bank_statement_lines lines by later imported ≡ ([], imported)
  unfolding refs
  import_bank_statement_lines-twice later = import_none lines by later imported (none_new later)

-- No reference twice.
abbrev pub IsUnique : List String → Type 0
IsUnique [] = Unit
IsUnique (r ∷ rs) = (mem_ref r rs ≡ false) × IsUnique rs

IsUnique-append :
    (xs ys : List String)
    → ((r : String) → mem_ref r xs ≡ true → mem_ref r ys ≡ false)
    → IsUnique xs
    → IsUnique ys
    → IsUnique (xs ++ ys)
unfolding mem_ref
IsUnique-append [] ys apart u v = v
IsUnique-append (x ∷ xs) ys apart u v = (
  mem_ref-append x xs ys ∙ rw (u.0, apart x (rw (eq_refl x) refl)) refl,
  IsUnique-append xs ys (λ r k. apart r (or-right (str_eq x r) _ k)) u.1 v,
)

-- What was there or was seen is not new.
new_rows-skips :
    (by : Option ℕ) (fresh : ℕ → ℕ) (had : List String) (lines : List BankStatementLineImport)
    (seen : List String) (n : ℕ) (r : String)
    → (mem_ref r had || mem_ref r seen) ≡ true
    → mem_ref r (refs_of (new_rows by fresh had lines seen n)) ≡ false
unfolding mem_ref new_rows
new_rows-skips by fresh had [] seen n r h = refl
new_rows-skips by fresh had (l ∷ lines) seen n r h =
    elim (Bool-cases (mem_ref l.external_ref had || mem_ref l.external_ref seen)) [
      | inl a ↦ rw a (new_rows-skips by fresh had lines seen n r h)
      | inr a ↦
          let other : str_eq l.external_ref r ≡ false =
            differs l.external_ref r (λ s. mem_ref s had || mem_ref s seen) a h in
          rw (a, other)
            (new_rows-skips by fresh had lines (l.external_ref ∷ seen) (n + 1) r (rw other h))
    ]

new_rows-IsUnique :
    (by : Option ℕ) (fresh : ℕ → ℕ) (had : List String) (lines : List BankStatementLineImport)
    (seen : List String) (n : ℕ)
    → IsUnique (refs_of (new_rows by fresh had lines seen n))
unfolding mem_ref new_rows
new_rows-IsUnique by fresh had [] seen n = tt
new_rows-IsUnique by fresh had (l ∷ lines) seen n =
    elim (Bool-cases (mem_ref l.external_ref had || mem_ref l.external_ref seen)) [
      | inl a ↦ rw a (new_rows-IsUnique by fresh had lines seen n)
      | inr a ↦ rw a (
        new_rows-skips by fresh had lines (l.external_ref ∷ seen) (n + 1) l.external_ref
            (or-right (mem_ref l.external_ref had) _ (rw (eq_refl l.external_ref) refl)),
        new_rows-IsUnique by fresh had lines (l.external_ref ∷ seen) (n + 1),
      )
    ]

new_rows-subset :
    (by : Option ℕ) (fresh : ℕ → ℕ) (had : List String) (lines : List BankStatementLineImport)
    (seen : List String) (n : ℕ) (r : String)
    → mem_ref r (refs_of (new_rows by fresh had lines seen n)) ≡ true
    → mem_ref r (import_refs lines) ≡ true
unfolding mem_ref new_rows
new_rows-subset by fresh had [] seen n r h = cc
new_rows-subset by fresh had (l ∷ lines) seen n r h = ground (
  arith,
  new_rows-subset by fresh had lines seen n r,
  new_rows-subset by fresh had lines (l.external_ref ∷ seen) (n + 1) r,
)

-- If no two stored bank lines share their external reference, then none do after an import,
-- whatever the request repeats.
pub import_bank_statement_lines-IsUnique :
    (lines : List BankStatementLineImport) (by : Option ℕ) (fresh : ℕ → ℕ) (db : Db)
    → IsUnique (refs_of db.bank_lines)
    → IsUnique (refs_of (import_bank_statement_lines lines by fresh db).1.bank_lines)
unfolding import_bank_statement_lines
import_bank_statement_lines-IsUnique lines by fresh db u =
    let had = existing_external_refs (import_refs lines) db.bank_lines in
    let rows = new_rows by fresh had lines [] 0 in
    subst IsUnique (sym (store_rows-refs by rows db)) (
      IsUnique-append (refs_of db.bank_lines) (refs_of rows)
        (λ r k. elim (Bool-cases (mem_ref r (refs_of rows))) [
          | inl there ↦ new_rows-skips by fresh had lines [] 0 r (
              rw
                (
                  mem_ref-existing r (import_refs lines) db.bank_lines
                      (new_rows-subset by fresh had lines [] 0 r there),
                  k,
                )
                refl)
          | inr absent ↦ absent
        ])
        u (new_rows-IsUnique by fresh had lines [] 0))
