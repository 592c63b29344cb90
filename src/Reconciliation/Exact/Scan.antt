-- ===== src/Reconciliation/Exact/Scan.antt =====
-- The bucketed pass against the scan of all invoices for each transaction.
use finguard.Base.{
  ℕ, zero, suc, ◌+◌, ◌≡◌, refl, sym, ap, inl, inr, ◌∙◌, Bool, true, false, not, ◌&&◌, Option, none,
  some, List, [], ◌∷◌, if◌then◌else◌, Bool-cases, arith,
}
use finguard.Base.Int.{
  ℤ, pos, negsuc, ◌+ℤ◌, ◌-ℤ◌, eqb_ℤ, pos_part, int_laws, ◌<ℤ◌, ◌≤ℤ◌, abs_ℤ, neg_ℤ, leb→le_ℤ, ltb_ℤ,
  ltb→lt_ℤ, ltb→le_ℤ,
}
use finguard.Finance.Rows.{Invoice}
use finguard.Reconciliation.Match.{Transaction, ReconcilerTuning, amount_match, is_exact}
use finguard.Reconciliation.Exact.{
  Pass, mem_id, first_fit, candidates, match_from, note_match, no_matches, pass1_exact,
  bucket_invoices_by_amount, floor_kes, lo_key, hi_key, gather, get_bucket, sort_entries,
}
use finguard.Reconciliation.Exact.Buckets.{in_keys, near, sort-gather-bucket_from}

-- The inner loop of the nested scan: the first invoice that is free, and fits.
unfoldable pub scan : ReconcilerTuning → Transaction → List ℕ → List Invoice → Option Invoice
unfolding is_exact mem_id
scan rc txn taken [] = none
scan rc txn taken (inv ∷ invs) =
    if not (mem_id inv.id taken) && is_exact rc txn inv then some inv else scan rc txn taken invs

unfoldable pub scan_from : ReconcilerTuning → List Transaction → List Invoice → Pass → Pass
unfolding scan note_match
scan_from rc [] invoices pass = pass
scan_from rc (txn ∷ txns) invoices pass =
    scan_from rc txns invoices (note_match txn (scan rc txn pass.matched_inv_ids invoices) pass)

-- The nested loop, O(transactions × invoices).
unfoldable pub pass1_nested : ReconcilerTuning → List Transaction → List Invoice → Pass
unfolding scan_from
pass1_nested rc transactions invoices = scan_from rc transactions invoices no_matches

eqb→eq_ℤ : (a b : ℤ) → a ≤ℤ b → b ≤ℤ a → eqb_ℤ a b ≡ true
eqb→eq_ℤ a b h k = ground arith

in_keys-of_range :
    (k : ℤ) (count : ℕ) (q : ℤ) → k ≤ℤ q → q <ℤ k +ℤ pos count → in_keys k count q ≡ true
in_keys-of_range k zero q lo hi = absurd (omega (int_laws, lo, hi))
in_keys-of_range k (suc count) q lo hi = elim (Bool-cases (eqb_ℤ q k)) [
  | inl same ↦ rw same refl
  | inr other ↦
      let above : k <ℤ q = ground (arith, other, lo) in
      rw other
        (in_keys-of_range (k +ℤ pos 1) count q (omega (int_laws, above)) (omega (int_laws, hi)))
]

floor_kes-mono : (a b : ℤ) → a ≤ℤ b → floor_kes a ≤ℤ floor_kes b
unfolding floor_kes
floor_kes-mono (pos m) (pos n) h = omega arith
floor_kes-mono (pos m) (negsuc n) h = absurd (omega arith)
floor_kes-mono (negsuc m) (pos n) h = omega arith
floor_kes-mono (negsuc m) (negsuc n) h = omega arith

abs-le : (x t : ℤ) → abs_ℤ x ≤ℤ t → (x ≤ℤ t) × (neg_ℤ x ≤ℤ t)
abs-le x t h = elim (Bool-cases (ltb_ℤ x (pos 0))) [
  | inl minus ↦
      let bound : neg_ℤ x ≤ℤ t = rw minus at h in
      let low = ltb→lt_ℤ x (pos 0) minus in (omega (int_laws, bound, low), bound)
  | inr plus ↦
      let bound : x ≤ℤ t = rw plus at h in
      let high = ltb→le_ℤ x (pos 0) plus in (bound, omega (int_laws, bound, high))
]

-- An amount within the tolerance has its shilling among the keys.
amount_match-in_keys :
    (tol amount due : ℤ)
    → amount_match tol amount due ≡ true
    → in_keys
        (lo_key tol amount)
        (pos_part (hi_key tol amount +ℤ pos 1 -ℤ lo_key tol amount))
        (floor_kes due)
      ≡ true
unfolding amount_match
amount_match-in_keys tol amount due h =
    let (above, below) = abs-le (amount -ℤ due) tol (leb→le_ℤ (abs_ℤ (amount -ℤ due)) tol h) in
    let lo = floor_kes-mono (amount -ℤ tol) due (omega (int_laws, above)) in
    let hi = floor_kes-mono due (amount +ℤ tol) (omega (int_laws, below)) in
    in_keys-of_range (lo_key tol amount) _ (floor_kes due) (omega (int_laws, lo))
      (omega (int_laws, lo, hi))

and-left : (a b c : Bool) → (a && b && c) ≡ true → a ≡ true
and-left a b c h = ground arith

and-none : (a b : Bool) → b ≡ false → (a && b) ≡ false
and-none a b h = ground arith

clash {ℓ} : {A : Type ℓ} → false ≡ true → A
clash h = cc

-- The invoices that are left out fit nothing.
first_fit-near :
    (rc : ReconcilerTuning) (txn : Transaction) (taken : List ℕ) (k : ℤ) (count idx : ℕ)
    (invs : List Invoice)
    → ((inv : Invoice)
        → is_exact rc txn inv ≡ true
        → in_keys k count (floor_kes inv.balance_due) ≡ true)
    → first_fit rc txn taken (near k count idx invs) ≡ scan rc txn taken invs
unfolding first_fit near scan
first_fit-near rc txn taken k count idx [] h = refl
first_fit-near rc txn taken k count idx (inv ∷ invs) h =
    let rest = first_fit-near rc txn taken k count (idx + 1) invs h in
    elim (Bool-cases (in_keys k count (floor_kes inv.balance_due))) [
      | inl inside ↦ rw (inside, rest) refl
      | inr outside ↦ elim (Bool-cases (is_exact rc txn inv)) [
        | inl exact ↦ clash (sym outside ∙ h inv exact)
        | inr other ↦ rw (outside, rest, and-none (not (mem_id inv.id taken)) _ other) refl
      ]
    ]

is_exact-in_keys :
    (rc : ReconcilerTuning) (txn : Transaction) (inv : Invoice)
    → is_exact rc txn inv ≡ true
    → in_keys
        (lo_key rc.amount_tolerance txn.amount)
        (pos_part
          (hi_key rc.amount_tolerance txn.amount +ℤ pos 1 -ℤ lo_key rc.amount_tolerance txn.amount))
        (floor_kes inv.balance_due)
      ≡ true
unfolding is_exact
is_exact-in_keys rc txn inv h =
    amount_match-in_keys rc.amount_tolerance txn.amount inv.balance_due
      (and-left (amount_match rc.amount_tolerance txn.amount inv.balance_due) _ _ h)

gather-none : (k : ℤ) (count : ℕ) → gather k count [] ≡ []
unfolding gather get_bucket
gather-none k zero = refl
gather-none k (suc count) = gather-none (k +ℤ pos 1) count

first_fit-candidates :
    (rc : ReconcilerTuning) (txn : Transaction) (taken : List ℕ) (invs : List Invoice)
    → first_fit rc txn taken
        (candidates rc.amount_tolerance txn.amount (bucket_invoices_by_amount invs))
      ≡ scan rc txn taken invs
unfolding candidates bucket_invoices_by_amount gather sort_entries
first_fit-candidates rc txn taken invs =
    let k = lo_key rc.amount_tolerance txn.amount in
    let count = pos_part (hi_key rc.amount_tolerance txn.amount +ℤ pos 1 -ℤ k) in
    ap (first_fit rc txn taken) (sort-gather-bucket_from k count 0 invs [] tt)
    ∙ rw (gather-none k count) (
        first_fit-near rc txn taken k count 0 invs (λ inv exact. is_exact-in_keys rc txn inv exact))

match_from-eq :
    (rc : ReconcilerTuning) (txns : List Transaction) (invs : List Invoice) (pass : Pass)
    → match_from rc txns (bucket_invoices_by_amount invs) pass ≡ scan_from rc txns invs pass
unfolding match_from scan_from
match_from-eq rc [] invs pass = refl
match_from-eq rc (txn ∷ txns) invs pass =
    rw (first_fit-candidates rc txn pass.matched_inv_ids invs)
      (match_from-eq rc txns invs (note_match txn (scan rc txn pass.matched_inv_ids invs) pass))

-- The exact pass, which looks each transaction up in buckets of invoices by whole shillings and
-- sorts what it finds, gives the same matches and matched ids as the nested loop over all
-- transactions and all invoices, at any tolerance and for any amounts.
pub pass1_exact-eq-nested :
    (rc : ReconcilerTuning) (transactions : List Transaction) (invoices : List Invoice)
    → pass1_exact rc transactions invoices ≡ pass1_nested rc transactions invoices
unfolding pass1_exact pass1_nested
pass1_exact-eq-nested rc transactions invoices = match_from-eq rc transactions invoices no_matches
