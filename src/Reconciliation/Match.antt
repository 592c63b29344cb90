-- ===== src/Reconciliation/Match.antt =====
-- The tests that pair a transaction with an invoice: `_amount_match`, `_date_match` and `_ref_match`
-- of backend/src/domains/intelligence/services/reconciliation_service.py, with the thresholds of
-- `ReconcilerTuning` (backend/src/domains/intelligence/tuning.py).
use finguard.Base.{
  ℕ, ◌+◌, ◌-◌, ◌/◌, Bool, true, false, ◌&&◌, ◌||◌, Option, none, some, List, [], ◌∷◌, String, leb,
  if◌then◌else◌,
}
use finguard.Base.Int.{ℤ, pos, ◌-ℤ◌, leb_ℤ, abs_ℤ}
use finguard.Base.Text.{lower, strip, contains, split, str_length, is_empty}
use finguard.Finance.Rows.{Invoice}

-- A row of the settlements to match, of either rail.
pub record Transaction : Type 0 where
  pub id : ℕ
  pub amount : ℤ
  pub bill_ref : Option String
  pub created_at : ℕ

pub data MatchType : Type 0 where
  exact fuzzy semantic : MatchType

-- `new_invoice_status`
pub data MatchStatus : Type 0 where
  paid partially_paid : MatchStatus

-- `source`
pub data Rail : Type 0 where
  mpesa bank : Rail

pub record ReconciliationMatch : Type 0 where
  pub transaction_id : ℕ
  pub invoice_id : ℕ
  pub match_type : MatchType
  pub match_score : ℕ
  pub amount : ℤ
  pub new_invoice_status : MatchStatus
  pub source : Rail

-- Scores are hundredths, amounts cents, the window days.
pub record ReconcilerTuning : Type 0 where
  pub txn_batch : ℕ
  pub inv_limit : ℕ
  pub fuzzy_threshold : ℕ
  pub semantic_threshold : ℕ
  pub fuzzy_match_boundary : ℕ
  pub amount_tolerance : ℤ
  pub date_window_days : ℕ
  pub pass2_candidate_cap : ℕ

abbrev pub default_tuning : ReconcilerTuning
default_tuning = record {
  txn_batch = 100;
  inv_limit = 500;
  fuzzy_threshold = 6500;
  semantic_threshold = 60;
  fuzzy_match_boundary = 90;
  amount_tolerance = pos 100;
  date_window_days = 2;
  pass2_candidate_cap = 50;
}

-- `_amount_match`
unfoldable pub amount_match : ℤ → ℤ → ℤ → Bool
amount_match tolerance amount due = leb_ℤ (abs_ℤ (amount -ℤ due)) tolerance

-- The day of a timestamp, which counts seconds.
abbrev pub day_of : ℕ → ℕ
day_of t = t / 86400

-- `_date_match`
unfoldable pub date_match : ℕ → ℕ → Option ℕ → Bool
date_match window txn_date none = true
date_match window txn_date (some due_date) =
    leb (day_of txn_date - day_of due_date + (day_of due_date - day_of txn_date)) window

-- `any(token in i for token in … if len(token) >= 3)`
unfoldable pub any_token : String → List String → Bool
unfolding str_length contains
any_token i [] = false
any_token i (token ∷ tokens) = leb 3 (str_length token) && contains token i || any_token i tokens

abbrev pub same_reference : String → String → Bool
same_reference b i = contains b i || contains i b || any_token i (split b)

-- `_ref_match`
unfoldable pub ref_match : Option String → String → Bool
unfolding any_token lower strip contains split is_empty
ref_match none invoice_number = false
ref_match (some bill_ref) invoice_number =
    if is_empty bill_ref
    then false
    else same_reference (strip (lower bill_ref)) (strip (lower invoice_number))

-- The tests of Pass 1 on a pair.
unfoldable pub is_exact : ReconcilerTuning → Transaction → Invoice → Bool
unfolding amount_match date_match ref_match
is_exact rc txn inv =
    amount_match rc.amount_tolerance txn.amount inv.balance_due
    && date_match rc.date_window_days txn.created_at inv.due_date
    && ref_match txn.bill_ref inv.invoice_number

-- `"paid" if amount >= balance_due - 0.01 else "partially_paid"`
abbrev pub status_after : ℤ → ℤ → MatchStatus
status_after amount balance_due =
    if leb_ℤ (balance_due -ℤ pos 1) amount then MatchStatus.paid else MatchStatus.partially_paid
