-- ===== src/Reconciliation/Persist.antt =====
-- The transaction of a run: both passes, and the persistence of the first, in
-- `run_reconciliation` and `run_bank_reconciliation` of
-- backend/src/domains/intelligence/services/reconciliation_service.py. The functions of third
-- parties and the credential checks are the fields of `Host`.
use finguard.Base.{
  ℕ, ◌+◌, ◌==◌, Bool, not, Option, none, some, List, [], ◌∷◌, ◌++◌, String, map, if◌then◌else◌,
}
use finguard.Core.Errors.{Result, ok, ◌>>=◌, ◌>>◌, raise_if}
use finguard.Core.Errors.AppError.{app_error}
use finguard.Finance.Rows.{Invoice}
use finguard.Finance.Db.{Db}
use finguard.Proposals.Registry.{MutationKind, mutation_kinds, has_kind}
use finguard.Proposals.World.{Payload}
use finguard.Proposals.Create.{ProposalRequest}
use finguard.Reconciliation.Match.{Transaction, Rail, ReconciliationMatch, ReconcilerTuning}
use finguard.Reconciliation.Exact.{add_id, pass1_exact}
use finguard.Reconciliation.Semantic.{
  FuzzyCandidate, ReconciliationCandidate, pass2_semantic, txn_map,
}
use finguard.Reconciliation.Settle.{apply_confirmed_match}

-- What the pipeline uses and does not implement: the similarity of texts, the model, the check of a
-- credential for a settlement and for a proposal, and the fingerprint of a payload.
pub record Host : Type 0 where
  pub ratio : String → String → ℕ
  pub score : List FuzzyCandidate → Option (List ReconciliationCandidate)
  pub match_vc : ReconciliationMatch → Bool
  pub proposal_vc : ProposalRequest → ℕ → Bool
  pub payload_hash : Payload → ℕ

-- The state of the loop that persists Pass 1.
pub record Settling : Type 0 where
  pub db : Db
  pub applied : List ReconciliationMatch
  pub matched_txn_ids : List ℕ
  pub matched_inv_ids : List ℕ

-- `ids.discard(id)`
unfoldable pub discard_id : ℕ → List ℕ → List ℕ
discard_id i [] = []
discard_id i (j ∷ js) = if j == i then discard_id i js else j ∷ discard_id i js

-- A match whose credential fails drops out.
abbrev pub skip_match : ReconciliationMatch → Settling → Settling
skip_match m s = record s {
  matched_txn_ids = discard_id m.transaction_id s.matched_txn_ids;
  matched_inv_ids = discard_id m.invoice_id s.matched_inv_ids;
}

-- `txn_dates.get(id) or datetime.now(UTC)`
abbrev pub date_or : Option Transaction → ℕ → ℕ
date_or none now = now
date_or (some t) now = t.created_at

abbrev pub occurred_at_of : List Transaction → ℕ → ReconciliationMatch → ℕ
occurred_at_of txns now m = date_or (txn_map txns m.transaction_id) now

-- The loop that persists Pass 1: all writes or, by an exception, none. The payment of the `n`-th
-- settlement gets the id `fresh n`.
unfoldable pub apply_matches :
    (ReconciliationMatch → Bool)
    → (ReconciliationMatch → ℕ)
    → (ℕ → ℕ)
    → ℕ
    → List ReconciliationMatch
    → Settling
    → Result Settling
unfolding discard_id
apply_matches vc occurred_at fresh n [] s = ok s
apply_matches vc occurred_at fresh n (m ∷ ms) s =
    let skipped = apply_matches vc occurred_at fresh n ms (skip_match m s) in
    let settled = apply_confirmed_match m (occurred_at m) (fresh n) s.db >>= λ r.
    apply_matches vc occurred_at fresh (n + 1) ms
      (record s { db = r.1; applied = s.applied ++ m ∷ [] }) in
    if vc m then settled else skipped

-- The ids of confirmed matches are added to the matched ones.
unfoldable pub add_txn_ids : List ReconciliationMatch → List ℕ → List ℕ
unfolding add_id
add_txn_ids [] ids = ids
add_txn_ids (m ∷ ms) ids = add_txn_ids ms (add_id m.transaction_id ids)

unfoldable pub add_inv_ids : List ReconciliationMatch → List ℕ → List ℕ
unfolding add_id
add_inv_ids [] ids = ids
add_inv_ids (m ∷ ms) ids = add_inv_ids ms (add_id m.invoice_id ids)

-- `m.source = …`
abbrev pub tag : Rail → ReconciliationMatch → ReconciliationMatch
tag rail m = record m { source = rail }

-- What the transaction of a run leaves: its writes, the matches of Pass 2, and the matched ids.
pub record Committed : Type 0 where
  pub db : Db
  pub exact_matches : List ReconciliationMatch
  pub semantic_matches : List ReconciliationMatch
  pub matched_txn_ids : List ℕ

-- Nothing to match.
abbrev pub idle : Db → Committed
idle db = record { db = db; exact_matches = []; semantic_matches = []; matched_txn_ids = [] }

abbrev pub semantic_of :
    Host → ReconcilerTuning → List Transaction → List Invoice → List ReconciliationMatch
semantic_of host rc txns invs =
    let pass = pass1_exact rc txns invs in
    pass2_semantic host.ratio host.score rc txns invs pass.matched_txn_ids pass.matched_inv_ids

-- The two passes, and the persistence of the first.
unfoldable pub settle_matches :
    Host
    → ReconcilerTuning
    → Rail
    → ℕ
    → (ℕ → ℕ)
    → List Transaction
    → List Invoice
    → Db
    → Result Committed
unfolding apply_matches add_txn_ids add_inv_ids
settle_matches host rc rail now fresh txns invs db = do
  let pass = pass1_exact rc txns invs
  let semantic = semantic_of host rc txns invs
  raise_if (not (has_kind MutationKind.direct_write (mutation_kinds "C"))) app_error
  s ←
      apply_matches host.match_vc (occurred_at_of txns now) fresh 0 (map (tag rail) pass.matches)
        (record {
          db = db;
          applied = [];
          matched_txn_ids = add_txn_ids semantic pass.matched_txn_ids;
          matched_inv_ids = add_inv_ids semantic pass.matched_inv_ids;
        })
  ok (record {
    db = s.db;
    exact_matches = s.applied;
    semantic_matches = map (tag rail) semantic;
    matched_txn_ids = s.matched_txn_ids;
  })

-- `if transactions and invoices`
unfoldable pub settle_batch :
    Host
    → ReconcilerTuning
    → Rail
    → ℕ
    → (ℕ → ℕ)
    → List Transaction
    → List Invoice
    → Db
    → Result Committed
unfolding settle_matches
settle_batch host rc rail now fresh [] invs db = ok (idle db)
settle_batch host rc rail now fresh (t ∷ ts) [] db = ok (idle db)
settle_batch host rc rail now fresh (t ∷ ts) (i ∷ is) db =
    settle_matches host rc rail now fresh (t ∷ ts) (i ∷ is) db
