-- ===== src/Reconciliation/Semantic.antt =====
-- Pass 2 of the reconciliation: `_build_fuzzy_candidates`, `_llm_score_candidates` and
-- `_pass2_semantic` of backend/src/domains/intelligence/services/reconciliation_service.py. The
-- similarity of two texts and the language model are parameters: `ratio` is
-- `fuzz.token_sort_ratio`, and `score` answers a list of candidates, or fails.
pub mod Confirm
use finguard.Base.{
  ℕ, Bool, true, false, not, ◌&&◌, ◌||◌, ◌==◌, Option, none, some, List, [], ◌∷◌, ◌++◌, String, leb,
  ltb, take, if◌then◌else◌,
}
use finguard.Base.Int.{ℤ}
use finguard.Base.Table.{last_row}
use finguard.Base.Text.{strip, is_empty}
use finguard.Finance.Rows.{Invoice}
use finguard.Reconciliation.Match.{
  Transaction, MatchType, Rail, ReconciliationMatch, ReconcilerTuning, status_after,
}
use finguard.Reconciliation.Exact.{mem_id}

-- A row of the prompt.
pub record FuzzyCandidate : Type 0 where
  pub transaction_id : ℕ
  pub invoice_id : ℕ
  pub bill_ref : String
  pub invoice_number : String
  pub amount_paid : ℤ
  pub amount_due : ℤ
  pub rapidfuzz_score : ℕ

-- A row of the model's answer.
pub record ReconciliationCandidate : Type 0 where
  pub transaction_id : ℕ
  pub invoice_id : ℕ
  pub match_score : ℕ

-- `(txn.get("bill_ref") or "").strip()`
abbrev pub reference_of : Option String → String
reference_of none = ""
reference_of (some bill_ref) = strip bill_ref

abbrev pub fuzzy_candidate : (String → String → ℕ) → Transaction → Invoice → FuzzyCandidate
fuzzy_candidate ratio txn inv = record {
  transaction_id = txn.id;
  invoice_id = inv.id;
  bill_ref = reference_of txn.bill_ref;
  invoice_number = inv.invoice_number;
  amount_paid = txn.amount;
  amount_due = inv.balance_due;
  rapidfuzz_score = ratio (reference_of txn.bill_ref) inv.invoice_number;
}

-- The inner loop of `_build_fuzzy_candidates`.
unfoldable pub candidates_of :
    (String → String → ℕ)
    → ReconcilerTuning
    → List ℕ
    → Transaction
    → List Invoice
    → List FuzzyCandidate
unfolding mem_id
candidates_of ratio rc taken txn [] = []
candidates_of ratio rc taken txn (inv ∷ invs) =
    let rest = candidates_of ratio rc taken txn invs in
    if not (mem_id inv.id taken)
      && leb rc.fuzzy_threshold (ratio (reference_of txn.bill_ref) inv.invoice_number)
    then fuzzy_candidate ratio txn inv ∷ rest
    else rest

-- `_build_fuzzy_candidates`
unfoldable pub build_fuzzy_candidates :
    (String → String → ℕ)
    → ReconcilerTuning
    → List Transaction
    → List Invoice
    → List ℕ
    → List ℕ
    → List FuzzyCandidate
unfolding mem_id candidates_of is_empty strip
build_fuzzy_candidates ratio rc [] invoices matched_txn_ids matched_inv_ids = []
build_fuzzy_candidates ratio rc (txn ∷ txns) invoices matched_txn_ids matched_inv_ids =
    let rest = build_fuzzy_candidates ratio rc txns invoices matched_txn_ids matched_inv_ids in
    if mem_id txn.id matched_txn_ids || is_empty (reference_of txn.bill_ref)
    then rest
    else candidates_of ratio rc matched_inv_ids txn invoices ++ rest

-- `sorted(…, key=match_score, reverse=True)`, a stable sort.
unfoldable pub insert_scored :
    ReconciliationCandidate → List ReconciliationCandidate → List ReconciliationCandidate
insert_scored c [] = c ∷ []
insert_scored c (x ∷ xs) =
    if leb x.match_score c.match_score then c ∷ x ∷ xs else x ∷ insert_scored c xs

unfoldable pub sort_scored : List ReconciliationCandidate → List ReconciliationCandidate
unfolding insert_scored
sort_scored [] = []
sort_scored (c ∷ cs) = insert_scored c (sort_scored cs)

-- `txn_map` and `inv_map`
abbrev pub txn_map : List Transaction → ℕ → Option Transaction
txn_map txns i = last_row (λ (t : Transaction). t.id) i txns

abbrev pub inv_map : List Invoice → ℕ → Option Invoice
inv_map invs i = last_row (λ (r : Invoice). r.id) i invs

-- What the loop over the answer has so far.
pub record Review : Type 0 where
  pub matches : List ReconciliationMatch
  pub seen_txn : List ℕ
  pub seen_inv : List ℕ

abbrev pub scored_match :
    ReconcilerTuning → ReconciliationCandidate → Transaction → Invoice → ReconciliationMatch
scored_match rc cand txn inv = record {
  transaction_id = cand.transaction_id;
  invoice_id = cand.invoice_id;
  match_type =
      if leb rc.fuzzy_match_boundary cand.match_score then MatchType.fuzzy else MatchType.semantic;
  match_score = cand.match_score;
  amount = txn.amount;
  new_invoice_status = status_after txn.amount inv.balance_due;
  source = Rail.mpesa;
}

-- The end of the loop's body, after both lookups.
unfoldable pub note_scored :
    ReconcilerTuning
    → ReconciliationCandidate
    → Option Transaction
    → Option Invoice
    → Review
    → Review
note_scored rc cand none inv r = r
note_scored rc cand (some txn) none r = r
note_scored rc cand (some txn) (some inv) r = record {
  matches = r.matches ++ scored_match rc cand txn inv ∷ [];
  seen_txn = cand.transaction_id ∷ r.seen_txn;
  seen_inv = cand.invoice_id ∷ r.seen_inv;
}

-- The body of the loop.
unfoldable pub review_step :
    ReconcilerTuning → List Transaction → List Invoice → ReconciliationCandidate → Review → Review
unfolding mem_id last_row note_scored
review_step rc transactions invoices cand r =
    if mem_id cand.transaction_id r.seen_txn || mem_id cand.invoice_id r.seen_inv
    then r
    else if ltb cand.match_score rc.semantic_threshold
    then r
    else note_scored rc cand (txn_map transactions cand.transaction_id)
        (inv_map invoices cand.invoice_id) r

unfoldable pub review_all :
    ReconcilerTuning
    → List Transaction
    → List Invoice
    → List ReconciliationCandidate
    → Review
    → Review
unfolding review_step
review_all rc transactions invoices [] r = r
review_all rc transactions invoices (c ∷ cs) r =
    review_all rc transactions invoices cs (review_step rc transactions invoices c r)

-- The model's answer, worked through; a failure gives no match.
unfoldable pub confirm :
    ReconcilerTuning
    → List Transaction
    → List Invoice
    → Option (List ReconciliationCandidate)
    → List ReconciliationMatch
unfolding review_all sort_scored
confirm rc transactions invoices none = []
confirm rc transactions invoices (some scored) =
    (review_all rc transactions invoices (sort_scored scored)
      (record { matches = []; seen_txn = []; seen_inv = [] })).matches

-- No call of the model without candidates.
unfoldable pub score_candidates :
    (List FuzzyCandidate → Option (List ReconciliationCandidate))
    → ReconcilerTuning
    → List FuzzyCandidate
    → Option (List ReconciliationCandidate)
score_candidates score rc [] = none
score_candidates score rc (c ∷ cs) = score (take rc.pass2_candidate_cap (c ∷ cs))

-- `_pass2_semantic`
unfoldable pub pass2_semantic :
    (String → String → ℕ)
    → (List FuzzyCandidate → Option (List ReconciliationCandidate))
    → ReconcilerTuning
    → List Transaction
    → List Invoice
    → List ℕ
    → List ℕ
    → List ReconciliationMatch
unfolding confirm score_candidates build_fuzzy_candidates
pass2_semantic ratio score rc transactions invoices matched_txn_ids matched_inv_ids =
    confirm rc transactions invoices (
      score_candidates score rc
        (build_fuzzy_candidates ratio rc transactions invoices matched_txn_ids matched_inv_ids))
