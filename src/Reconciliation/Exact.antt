-- ===== src/Reconciliation/Exact.antt =====
-- Pass 1 of the reconciliation: `_bucket_invoices_by_amount` and `_pass1_exact` of
-- backend/src/domains/intelligence/services/reconciliation_service.py. Amounts are cents, and a
-- bucket is a whole shilling.
pub mod Buckets
pub mod Scan
pub mod Count
pub mod Sound
use finguard.Base.{
  ℕ, zero, suc, ◌+◌, ◌/◌, ◌==◌, Bool, true, false, not, ◌&&◌, ◌||◌, Option, none, some, List, [],
  ◌∷◌, ◌++◌, leb, if◌then◌else◌,
}
use finguard.Base.Int.{ℤ, pos, negsuc, ◌+ℤ◌, ◌-ℤ◌, eqb_ℤ, pos_part}
use finguard.Finance.Rows.{Invoice}
use finguard.Reconciliation.Match.{
  Transaction, MatchType, Rail, ReconciliationMatch, ReconcilerTuning, is_exact, status_after,
}

-- `math.floor` of an amount in cents, to shillings.
unfoldable pub floor_kes : ℤ → ℤ
floor_kes (pos n) = pos (n / 100)
floor_kes (negsuc n) = negsuc (n / 100)

-- An invoice with its place in the scan.
abbrev pub Entry : Type 0
Entry = ℕ × Invoice

-- The dictionary of buckets.
abbrev pub Buckets : Type 0
Buckets = List (ℤ × List Entry)

-- `buckets.get(key, ())`
unfoldable pub get_bucket : ℤ → Buckets → List Entry
get_bucket key [] = []
get_bucket key (b ∷ bs) = if eqb_ℤ b.0 key then b.1 else get_bucket key bs

-- `buckets[key].append(entry)`
unfoldable pub append_bucket : ℤ → Entry → Buckets → Buckets
append_bucket key entry [] = (key, entry ∷ []) ∷ []
append_bucket key entry (b ∷ bs) =
    if eqb_ℤ b.0 key then (b.0, b.1 ++ entry ∷ []) ∷ bs else b ∷ append_bucket key entry bs

-- The loop of `_bucket_invoices_by_amount`, from an index on.
unfoldable pub bucket_from : ℕ → List Invoice → Buckets → Buckets
unfolding append_bucket floor_kes
bucket_from idx [] buckets = buckets
bucket_from idx (inv ∷ invs) buckets =
    bucket_from (idx + 1) invs (append_bucket (floor_kes inv.balance_due) (idx, inv) buckets)

-- `_bucket_invoices_by_amount`
unfoldable pub bucket_invoices_by_amount : List Invoice → Buckets
unfolding bucket_from
bucket_invoices_by_amount invoices = bucket_from 0 invoices []

-- The candidates of `count` keys from `key` on.
unfoldable pub gather : ℤ → ℕ → Buckets → List Entry
unfolding get_bucket
gather key zero buckets = []
gather key (suc count) buckets = get_bucket key buckets ++ gather (key +ℤ pos 1) count buckets

-- `candidates.sort(key=…)`, a stable sort by the place.
unfoldable pub insert_entry : Entry → List Entry → List Entry
insert_entry e [] = e ∷ []
insert_entry e (x ∷ xs) = if leb e.0 x.0 then e ∷ x ∷ xs else x ∷ insert_entry e xs

unfoldable pub sort_entries : List Entry → List Entry
unfolding insert_entry
sort_entries [] = []
sort_entries (e ∷ es) = insert_entry e (sort_entries es)

-- The first and the last key whose bucket can hold a match.
abbrev pub lo_key : ℤ → ℤ → ℤ
lo_key tol amount = floor_kes (amount -ℤ tol) -ℤ pos 1

abbrev pub hi_key : ℤ → ℤ → ℤ
hi_key tol amount = floor_kes (amount +ℤ tol) +ℤ pos 1

-- The candidates of a transaction, in the order of the scan.
unfoldable pub candidates : ℤ → ℤ → Buckets → List Entry
unfolding gather sort_entries floor_kes
candidates tol amount buckets = sort_entries (
    gather (lo_key tol amount) (pos_part (hi_key tol amount +ℤ pos 1 -ℤ lo_key tol amount)) buckets)

-- `id in ids`
unfoldable pub mem_id : ℕ → List ℕ → Bool
mem_id i [] = false
mem_id i (j ∷ js) = j == i || mem_id i js

-- `ids.add(id)`
unfoldable pub add_id : ℕ → List ℕ → List ℕ
unfolding mem_id
add_id i ids = if mem_id i ids then ids else i ∷ ids

-- The tests of the inner loop: an invoice that is free, and fits.
unfoldable pub fits : ReconcilerTuning → Transaction → List ℕ → Entry → Bool
unfolding mem_id is_exact
fits rc txn taken e = not (mem_id e.1.id taken) && is_exact rc txn e.1

-- The inner loop, up to its `break`.
unfoldable pub first_fit : ReconcilerTuning → Transaction → List ℕ → List Entry → Option Invoice
unfolding fits
first_fit rc txn taken [] = none
first_fit rc txn taken (e ∷ es) =
    if fits rc txn taken e then some e.1 else first_fit rc txn taken es

-- What the loop over the transactions has so far.
pub record Pass : Type 0 where
  pub matches : List ReconciliationMatch
  pub matched_txn_ids : List ℕ
  pub matched_inv_ids : List ℕ

abbrev pub exact_match : Transaction → Invoice → ReconciliationMatch
exact_match txn inv = record {
  transaction_id = txn.id;
  invoice_id = inv.id;
  match_type = MatchType.exact;
  match_score = 100;
  amount = txn.amount;
  new_invoice_status = status_after txn.amount inv.balance_due;
  source = Rail.mpesa;
}

-- The invoice is not among the matched ones yet.
unfoldable pub note_match : Transaction → Option Invoice → Pass → Pass
unfolding add_id
note_match txn none pass = pass
note_match txn (some inv) pass = record {
  matches = pass.matches ++ exact_match txn inv ∷ [];
  matched_txn_ids = add_id txn.id pass.matched_txn_ids;
  matched_inv_ids = inv.id ∷ pass.matched_inv_ids;
}

-- The loop over the transactions.
unfoldable pub match_from : ReconcilerTuning → List Transaction → Buckets → Pass → Pass
unfolding first_fit candidates note_match
match_from rc [] buckets pass = pass
match_from rc (txn ∷ txns) buckets pass =
    let found =
      first_fit rc txn pass.matched_inv_ids (candidates rc.amount_tolerance txn.amount buckets) in
    match_from rc txns buckets (note_match txn found pass)

abbrev pub no_matches : Pass
no_matches = record { matches = []; matched_txn_ids = []; matched_inv_ids = [] }

-- `_pass1_exact`
unfoldable pub pass1_exact : ReconcilerTuning → List Transaction → List Invoice → Pass
unfolding bucket_invoices_by_amount match_from
pass1_exact rc transactions invoices =
    match_from rc transactions (bucket_invoices_by_amount invoices) no_matches
