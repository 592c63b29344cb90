-- ===== src/Reconciliation/Batch.antt =====
-- `run_reconciliation`, `run_bank_reconciliation` and `_propose_semantic_matches` of
-- backend/src/domains/intelligence/services/reconciliation_service.py. The thresholds are an
-- argument, as they are read anew by each run. No row is locked by another run.
pub mod Fetch
pub mod Script
pub mod Outcome
pub mod Refine
use finguard.Base.{
  ℕ, ◌+◌, ◌-◌, ◌==◌, Bool, true, false, not, ◌&&◌, ◌||◌, Option, none, some, List, [], ◌∷◌, ◌++◌,
  String, length, map, if◌then◌else◌,
}
use finguard.Base.Table.{last_row}
use finguard.Core.Errors.{AppError, Result, ok, err, ◌>>=◌, ◌>>◌, raise_if}
use finguard.Core.Errors.AppError.{app_error}
use finguard.Finance.Rows.{Invoice}
use finguard.Finance.Db.{Db}
use finguard.Proposals.Registry.{MutationKind, mutation_kinds, has_kind}
use finguard.Proposals.World.{
  ProposalStatus, ActionType, reconciliation_match, same_action, Payload, AgentActionProposal,
  World,
}
use finguard.Proposals.Create.{ProposalRequest, create_proposal}
use finguard.Proposals.Decide.{is_open}
use finguard.Reconciliation.Match.{
  Transaction, MatchType, exact, Rail, ReconciliationMatch, ReconcilerTuning,
}
use finguard.Reconciliation.Exact.{mem_id, add_id, Pass, pass1_exact}
use finguard.Reconciliation.Semantic.{
  FuzzyCandidate, ReconciliationCandidate, pass2_semantic, txn_map,
}
use finguard.Reconciliation.Settle.{apply_confirmed_match}
use finguard.Reconciliation.Persist.{
  Host, Settling, discard_id, skip_match, date_or, occurred_at_of, apply_matches, add_txn_ids,
  add_inv_ids, tag, Committed, idle, semantic_of, settle_matches, settle_batch,
}

abbrev names_transaction : ℕ → Payload → Bool
names_transaction i (Payload.reconciliation m t) = m.transaction_id == i
names_transaction i payload = false

-- `_pending_reconciliation_proposal_exists`
unfoldable pub pending_exists : ℕ → List AgentActionProposal → Bool
pending_exists i [] = false
pending_exists i (p ∷ ps) =
    same_action p.action_type reconciliation_match
      && is_open p.status
      && names_transaction i p.payload
    || pending_exists i ps

-- The text of the rationale is cut short.
abbrev pub match_request : ReconciliationMatch → ℕ → ProposalRequest
match_request m occurred_at = record {
  agent_label = "c_reconciler";
  action_type = reconciliation_match;
  payload = Payload.reconciliation m occurred_at;
  triggered_by = none;
  rationale = some "match";
}

-- What follows one proposal: an exception ends the loop, what was committed stays.
abbrev pub and_then :
    Result AgentActionProposal × World
    → (World → Result (Unit {0}) × World)
    → Result (Unit {0}) × World
and_then (err e, w) rest = (err e, w)
and_then (ok p, w) rest = rest w

-- `_propose_semantic_matches`. The `n`-th proposal gets the id `fresh n`.
unfoldable pub propose_semantic_matches :
    Host
    → (ReconciliationMatch → ℕ)
    → (ℕ → ℕ)
    → ℕ
    → List ReconciliationMatch
    → World
    → Result (Unit {0}) × World
unfolding pending_exists create_proposal
propose_semantic_matches host occurred_at fresh n [] w = (ok tt, w)
propose_semantic_matches host occurred_at fresh n (m ∷ ms) w =
    let known = propose_semantic_matches host occurred_at fresh n ms w in
    let queued =
      and_then
        (create_proposal host.payload_hash host.proposal_vc (match_request m (occurred_at m))
          (fresh n) w)
        (λ next. propose_semantic_matches host occurred_at fresh (n + 1) ms next) in
    if pending_exists m.transaction_id w.proposals then known else queued

pub record ReconciliationReport : Type 0 where
  pub total_transactions : ℕ
  pub matched_exact : ℕ
  pub matched_fuzzy : ℕ
  pub proposed_for_review : ℕ
  pub unmatched : ℕ
  pub matches : List ReconciliationMatch

abbrev is_inexact : MatchType → Bool
is_inexact MatchType.exact = false
is_inexact kind = true

-- `sum(1 for m in all_matches if m.match_type != "exact")`
unfoldable pub count_inexact : List ReconciliationMatch → ℕ
count_inexact [] = 0
count_inexact (m ∷ ms) = (if is_inexact m.match_type then 1 else 0) + count_inexact ms

unfoldable pub report_of : List Transaction → Committed → ReconciliationReport
unfolding count_inexact
report_of txns c = record {
  total_transactions = length txns;
  matched_exact = length c.exact_matches;
  matched_fuzzy = count_inexact (c.exact_matches ++ c.semantic_matches);
  proposed_for_review = length c.semantic_matches;
  unmatched = length txns - length c.matched_txn_ids;
  matches = c.exact_matches ++ c.semantic_matches;
}

abbrev pub reported :
    ReconciliationReport → Result (Unit {0}) × World → Result ReconciliationReport × World
reported report (err e, w) = (err e, w)
reported report (ok u, w) = (ok report, w)

-- What follows the transaction: Pass 2 is queued for review, and the report is made.
unfoldable pub finish_run :
    Host
    → ℕ
    → (ℕ → ℕ)
    → List Transaction
    → World
    → Result Committed
    → Result ReconciliationReport × World
unfolding propose_semantic_matches report_of
finish_run host now fresh txns w (err e) = (err e, w)
finish_run host now fresh txns w (ok c) = reported (report_of txns c) (
    propose_semantic_matches host (occurred_at_of txns now) fresh 0 c.semantic_matches
      (record w { db = c.db }))

-- A run over the fetched rows.
unfoldable pub run_on :
    Host
    → ReconcilerTuning
    → Rail
    → ℕ
    → (ℕ → ℕ)
    → (ℕ → ℕ)
    → List Transaction
    → List Invoice
    → World
    → Result ReconciliationReport × World
unfolding finish_run settle_batch
run_on host rc rail now fresh_payment fresh_proposal txns invs w =
    finish_run host now fresh_proposal txns w
      (settle_batch host rc rail now fresh_payment txns invs w.db)
