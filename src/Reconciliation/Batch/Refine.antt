-- ===== src/Reconciliation/Batch/Refine.antt =====
-- What a run may do, whatever the model answers: settle exact matches, and propose confirmed ones.
use finguard.Base.{ℕ, ◌≡◌, refl, ◌∷◌, [], Bool, not, Option, none, List, String, map, All}
use finguard.Core.Errors.{Result, ok, err, Ensures, Ensures-bind, Ensures-raise_if}
use finguard.Core.Errors.AppError.{app_error}
use finguard.Finance.Rows.{Invoice}
use finguard.Finance.Db.{Db}
use finguard.Finance.Invoices.Settle.{Reconciled}
use finguard.Finance.Invoices.Preserve.Commands.{Command}
use finguard.Proposals.Registry.{MutationKind, mutation_kinds, has_kind}
use finguard.Proposals.World.{World, find_proposal}
use finguard.Proposals.Create.{ProposalRequest}
use finguard.Proposals.Runs.{Call, Reach, Books, Reach-Books}
use finguard.Reconciliation.Match.{
  Transaction, Rail, mpesa, bank, ReconciliationMatch, ReconcilerTuning,
}
use finguard.Reconciliation.Exact.{pass1_exact}
use finguard.Reconciliation.Exact.Sound.{IsExactMatch, pass1_exact-IsMatching}
use finguard.Reconciliation.Semantic.{
  ReconciliationCandidate, score_candidates, build_fuzzy_candidates,
}
use finguard.Reconciliation.Semantic.Confirm.{IsConfirmed, answer_of, pass2_semantic-IsReview}
use finguard.Reconciliation.Settle.{settlement_of}
use finguard.Reconciliation.Persist.{
  Host, Settling, occurred_at_of, apply_matches, tag, Committed, semantic_of, settle_matches,
  settle_batch, add_txn_ids, add_inv_ids,
}
use finguard.Reconciliation.Batch.{
  match_request, propose_semantic_matches, reported, finish_run, run_on, report_of,
  ReconciliationReport,
}
use finguard.Reconciliation.Batch.Fetch.{
  fetch_mpesa, fetch_bank, fetch_invoices, run_reconciliation, run_bank_reconciliation,
}
use finguard.Reconciliation.Batch.Script.{
  Script, Script-again, IsFresh, apply_matches-Script, propose_semantic_matches-Script,
}
use finguard.Reconciliation.Batch.Outcome.{IsOutcome, finish_run-IsOutcome}

module _ (rc : ReconcilerTuning) (rail : Rail) (now : ℕ) (txns : List Transaction)
    (invs : List Invoice) where
  -- A settlement of a run: that of an exact match, on the run's rail.
  pub record IsSettlement (r : Reconciled) : Type 0 where
    pub found : ReconciliationMatch
    pub exact : IsExactMatch rc txns invs found
    pub settles : r ≡ settlement_of rail (tag rail found) (occurred_at_of txns now (tag rail found))

module _ (host : Host) (rc : ReconcilerTuning) (rail : Rail) (now : ℕ) (txns : List Transaction)
    (invs : List Invoice) where
  -- What the model answers to the candidates that the first pass leaves.
  abbrev pub answer : List ReconciliationCandidate
  answer =
      let pass = pass1_exact rc txns invs in
      answer_of (
        score_candidates host.score rc (
          build_fuzzy_candidates host.ratio rc txns invs pass.matched_txn_ids pass.matched_inv_ids))

  -- A proposal of a run: that of a match that the model is sure of.
  pub record IsForReview (body : ProposalRequest) : Type 0 where
    pub found : ReconciliationMatch
    pub sure : IsConfirmed rc txns invs answer found
    pub proposes : body ≡ match_request (tag rail found) (occurred_at_of txns now (tag rail found))

  -- The calls of a run.
  abbrev pub IsRunCall : Call → Type 0
  IsRunCall (Call.finance (Command.reconcile r id)) = IsSettlement rc rail now txns invs r
  IsRunCall (Call.create body id) = IsForReview body
  IsRunCall c = ⊥

tagged :
    (rail : Rail) (P Q : ReconciliationMatch → Type 0) (ms : List ReconciliationMatch)
    → ((m : ReconciliationMatch) → P m → Q (tag rail m))
    → All P ms
    → All Q (map (tag rail) ms)
tagged rail P Q [] f h = tt
tagged rail P Q (m ∷ ms) f h = (f m h.0, tagged rail P Q ms f h.1)

module _ (host : Host) (parse_uuid : String → Option ℕ) (locked : Bool) (rc : ReconcilerTuning)
    (rail : Rail) (now : ℕ) where
  abbrev with_db : World → Db → World
  with_db w db = record w { db = db }

  -- The transaction of a run, and the matches that it leaves for review.
  record IsCommitted (txns : List Transaction) (invs : List Invoice) (w : World) (c : Committed)
      : Type 0 where
    script : Script host parse_uuid locked (IsRunCall host rc rail now txns invs) w (with_db w c.db)
    review :
        All
          (λ (m : ReconciliationMatch).
            ℕ
            → IsForReview host rc rail now txns invs (match_request m (occurred_at_of txns now m)))
          c.semantic_matches

  settle_matches-IsCommitted :
      (fresh : ℕ → ℕ) (txns : List Transaction) (invs : List Invoice) (w : World)
      → Ensures (IsCommitted txns invs w) (settle_matches host rc rail now fresh txns invs w.db)
  unfolding settle_matches
  settle_matches-IsCommitted fresh txns invs w =
      let pass = pass1_exact rc txns invs in
      let semantic = semantic_of host rc txns invs in
      let exact = (pass1_exact-IsMatching rc txns invs).exact in
      let sure =
        (pass2_semantic-IsReview rc txns invs host.ratio host.score pass.matched_txn_ids
          pass.matched_inv_ids).confirmed in
      let start : Settling = record {
        db = w.db;
        applied = [];
        matched_txn_ids = add_txn_ids semantic pass.matched_txn_ids;
        matched_inv_ids = add_inv_ids semantic pass.matched_inv_ids;
      } in
      Ensures-raise_if (IsCommitted txns invs w)
        (not (has_kind MutationKind.direct_write (mutation_kinds "C"))) app_error _
        (λ _.
          Ensures-bind (IsCommitted txns invs w)
            (λ (s : Settling).
              Script host parse_uuid locked (IsRunCall host rc rail now txns invs) (with_db w w.db)
                (with_db w s.db))
            (apply_matches host.match_vc (occurred_at_of txns now) fresh 0
              (map (tag rail) pass.matches) start)
            _
            (apply_matches-Script host parse_uuid locked (IsRunCall host rc rail now txns invs) w
              host.match_vc (occurred_at_of txns now) fresh 0 (map (tag rail) pass.matches) start
              (tagged rail (IsExactMatch rc txns invs)
                (λ (m : ReconciliationMatch).
                  (id : ℕ)
                  → IsSettlement rc rail now txns invs
                      (settlement_of m.source m (occurred_at_of txns now m)))
                pass.matches (λ m e id. record { found = m; exact = e; settles = refl }) exact))
            (λ s script. record {
              script = script;
              review =
                  tagged rail (IsConfirmed rc txns invs (answer host rc rail now txns invs))
                    (λ (m : ReconciliationMatch).
                      ℕ
                      → IsForReview host rc rail now txns invs
                          (match_request m (occurred_at_of txns now m)))
                    semantic (λ m c id. record { found = m; sure = c; proposes = refl }) sure;
            }))

  settle_batch-IsCommitted :
      (fresh : ℕ → ℕ) (txns : List Transaction) (invs : List Invoice) (w : World)
      → Ensures (IsCommitted txns invs w) (settle_batch host rc rail now fresh txns invs w.db)
  unfolding settle_batch
  settle_batch-IsCommitted fresh [] invs w = record { script = Script.done; review = tt }
  settle_batch-IsCommitted fresh (t ∷ ts) [] w = record { script = Script.done; review = tt }
  settle_batch-IsCommitted fresh (t ∷ ts) (i ∷ is) w =
      settle_matches-IsCommitted fresh (t ∷ ts) (i ∷ is) w

  reported-world :
      (report : ReconciliationReport) (x : Result (Unit {0}) × World) → (reported report x).1 ≡ x.1
  reported-world report (err e, w) = refl
  reported-world report (ok u, w) = refl

  finish_run-Script :
      (fresh : ℕ → ℕ) (txns : List Transaction) (invs : List Invoice) (w : World)
      (r : Result Committed)
      → ((a b : ℕ) → fresh a ≡ fresh b → a ≡ b)
      → IsFresh host parse_uuid locked (IsRunCall host rc rail now txns invs) fresh 0 w
      → Ensures (IsCommitted txns invs w) r
      → Script host parse_uuid locked
          (IsRunCall host rc rail now txns invs)
          w
          (finish_run host now fresh txns w r).1
  unfolding finish_run
  finish_run-Script fresh txns invs w (err e) inj f h = Script.done
  finish_run-Script fresh txns invs w (ok c) inj f h =
      let P = IsRunCall host rc rail now txns invs in
      let queued =
        propose_semantic_matches host (occurred_at_of txns now) fresh 0 c.semantic_matches
          (with_db w c.db) in
      rw (reported-world (report_of txns c) queued) (
        Script-again host parse_uuid locked P h.script (
          propose_semantic_matches-Script host parse_uuid locked P (occurred_at_of txns now) fresh 0
            c.semantic_matches (with_db w c.db) inj f h.review))

  -- What a run comes to: calls of the services, the tables of its transaction, and its report.
  pub record IsRun (fresh_payment : ℕ → ℕ) (txns : List Transaction) (invs : List Invoice)
      (w : World) (run : Result ReconciliationReport × World) : Type 0 where
    pub script : Script host parse_uuid locked (IsRunCall host rc rail now txns invs) w run.1
    pub outcome : IsOutcome txns w (settle_batch host rc rail now fresh_payment txns invs w.db) run

  run_on-IsRun :
      (fresh_payment fresh : ℕ → ℕ) (txns : List Transaction) (invs : List Invoice) (w : World)
      → ((a b : ℕ) → fresh a ≡ fresh b → a ≡ b)
      → IsFresh host parse_uuid locked (IsRunCall host rc rail now txns invs) fresh 0 w
      → IsRun fresh_payment txns invs w (run_on host rc rail now fresh_payment fresh txns invs w)
  unfolding run_on
  run_on-IsRun fresh_payment fresh txns invs w inj f =
      let r = settle_batch host rc rail now fresh_payment txns invs w.db in
      record {
        script =
            finish_run-Script fresh txns invs w r inj f
              (settle_batch-IsCommitted fresh_payment txns invs w);
        outcome = finish_run-IsOutcome host now fresh txns w r;
      }

-- What a call sequence of a run comes to.
module _ (host : Host) (parse_uuid : String → Option ℕ) (locked : Bool) (rc : ReconcilerTuning)
    (now : ℕ) (fresh_payment fresh : ℕ → ℕ) (w : World)
    (inj : (a b : ℕ) → fresh a ≡ fresh b → a ≡ b)
    (new : (k : ℕ) → find_proposal (fresh k) w ≡ none) where
  -- Whatever the similarity function, the model and the credential checks answer, a run of the
  -- M-Pesa or of the bank reconciliation, with new ids for its proposals, comes to a sequence of
  -- admitted calls of the two services: settlements of exact matches of the fetched rows on the
  -- run's rail, and requests to review a match that a row of the model's answer scores at the
  -- threshold or above. So no match of the model is settled by a run. A run that raises in its
  -- transaction gives that exception and leaves the world as it was; after a transaction that
  -- commits, the tables but the queue of mail are those of the commit, and a report that is
  -- returned is that of the commit.
  pub run_reconciliation-Script :
      IsRun host parse_uuid locked rc mpesa now fresh_payment
        (fetch_mpesa rc w.db)
        (fetch_invoices rc w.db)
        w
        (run_reconciliation host rc now fresh_payment fresh w)
      × IsRun host parse_uuid locked rc bank now fresh_payment
          (fetch_bank rc w.db)
          (fetch_invoices rc w.db)
          w
          (run_bank_reconciliation host rc now fresh_payment fresh w)
  unfolding run_reconciliation run_bank_reconciliation
  run_reconciliation-Script = (
    run_on-IsRun host parse_uuid locked rc mpesa now fresh_payment fresh (fetch_mpesa rc w.db)
        (fetch_invoices rc w.db) w inj (λ k h. new k),
    run_on-IsRun host parse_uuid locked rc bank now fresh_payment fresh (fetch_bank rc w.db)
        (fetch_invoices rc w.db) w inj (λ k h. new k),
  )

  Script-Reach :
      (P : Call → Type 0) {a b : World}
      → Reach host.payload_hash parse_uuid host.proposal_vc locked w a
      → Script host parse_uuid locked P a b
      → Reach host.payload_hash parse_uuid host.proposal_vc locked w b
  Script-Reach P r Script.done = r
  Script-Reach P r (Script.call c p a s) = Script-Reach P (Reach.next c r a) s

  -- From a world in which the invoice tables satisfy their invariant, the stock is what its
  -- movements replay to, and the proposals are orderly, a run of either reconciliation with new
  -- ids for its proposals leads to such a world, whatever the model answers and whether it
  -- returns or raises.
  pub run_reconciliation-Books :
      Books locked w
      → Books locked (run_reconciliation host rc now fresh_payment fresh w).1
        × Books locked (run_bank_reconciliation host rc now fresh_payment fresh w).1
  run_reconciliation-Books h = (
    Reach-Books host.payload_hash parse_uuid host.proposal_vc locked w h
        (Script-Reach _ Reach.here run_reconciliation-Script.0.script),
    Reach-Books host.payload_hash parse_uuid host.proposal_vc locked w h
        (Script-Reach _ Reach.here run_reconciliation-Script.1.script),
  )
