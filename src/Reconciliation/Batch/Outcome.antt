-- ===== src/Reconciliation/Batch/Outcome.antt =====
-- What the transaction of a run leaves, and its report.
use finguard.Base.{ℕ, ◌+◌, ◌∙◌, ap, if_elim, ◌≡◌, refl, ◌∷◌, [], not, List}
use finguard.Core.Errors.{Result, ok, err, Ensures}
use finguard.Finance.Db.{Db}
use finguard.Proposals.Registry.{MutationKind, mutation_kinds, has_kind}
use finguard.Proposals.World.{World, AgentActionProposal}
use finguard.Proposals.Create.{ProposalRequest, create_proposal, notify_release, agent_id_of}
use finguard.Reconciliation.Match.{Transaction, ReconciliationMatch}
use finguard.Reconciliation.Persist.{Host, occurred_at_of, Committed}
use finguard.Reconciliation.Batch.{
  match_request, pending_exists, and_then, propose_semantic_matches, reported, finish_run,
  report_of, ReconciliationReport,
}

-- The same tables, apart from the queue of mail.
abbrev pub IsMailed : Db → Db → Type 0
IsMailed db after = after ≡ record db { mail = after.mail }

IsMailed-trans : (a b c : Db) → IsMailed a b → IsMailed b c → IsMailed a c
IsMailed-trans a b c h k = k ∙ ap (λ (db : Db). record db { mail = c.mail }) h

-- A transaction that raises gives its exception, and the world as it was. After one that commits,
-- the tables but the queue of mail are those of the commit, and a report that is returned is that of the commit.
abbrev pub IsOutcome :
    List Transaction → World → Result Committed → Result ReconciliationReport × World → Type 0
IsOutcome txns w (err e) run = run ≡ (err e, w)
IsOutcome txns w (ok c) run =
    (IsMailed c.db run.1.db)
    × Ensures (λ (report : ReconciliationReport). report ≡ report_of txns c) run.0

module _ (host : Host) where
  create_proposal-IsMailed :
      (body : ProposalRequest) (id : ℕ) (w : World)
      → IsMailed w.db (create_proposal host.payload_hash host.proposal_vc body id w).1.db
  unfolding create_proposal notify_release
  create_proposal-IsMailed body id w =
      let Q = λ (r : Result AgentActionProposal × World). IsMailed w.db r.1.db in
      if_elim Q
        (not (
          has_kind MutationKind.proposal
            (mutation_kinds (agent_id_of body.action_type body.agent_label))))
        _ _ refl (if_elim Q (not (host.proposal_vc body id)) _ _ refl refl)

  and_then-IsMailed :
      (db : Db) (x : Result AgentActionProposal × World) (rest : World → Result (Unit {0}) × World)
      → IsMailed db x.1.db
      → IsMailed x.1.db (rest x.1).1.db
      → IsMailed db (and_then x rest).1.db
  and_then-IsMailed db (err e, w) rest h k = h
  and_then-IsMailed db (ok p, w) rest h k = IsMailed-trans db w.db (rest w).1.db h k

  propose_semantic_matches-IsMailed :
      (occurred_at : ReconciliationMatch → ℕ) (fresh : ℕ → ℕ) (n : ℕ)
      (ms : List ReconciliationMatch) (w : World)
      → IsMailed w.db (propose_semantic_matches host occurred_at fresh n ms w).1.db
  unfolding propose_semantic_matches
  propose_semantic_matches-IsMailed occurred_at fresh n [] w = refl
  propose_semantic_matches-IsMailed occurred_at fresh n (m ∷ ms) w =
      let made =
        create_proposal host.payload_hash host.proposal_vc (match_request m (occurred_at m))
          (fresh n) w in
      if_elim (λ (r : Result (Unit {0}) × World). IsMailed w.db r.1.db)
        (pending_exists m.transaction_id w.proposals) _ _
        (propose_semantic_matches-IsMailed occurred_at fresh n ms w)
        (and_then-IsMailed w.db made
          (λ next. propose_semantic_matches host occurred_at fresh (n + 1) ms next)
          (create_proposal-IsMailed (match_request m (occurred_at m)) (fresh n) w)
          (propose_semantic_matches-IsMailed occurred_at fresh (n + 1) ms made.1))

  reported-IsOutcome :
      (txns : List Transaction) (w : World) (c : Committed) (x : Result (Unit {0}) × World)
      → IsMailed c.db x.1.db
      → IsOutcome txns w (ok c) (reported (report_of txns c) x)
  reported-IsOutcome txns w c (err e, v) h = (h, tt)
  reported-IsOutcome txns w c (ok u, v) h = (h, refl)

  pub finish_run-IsOutcome :
      (now : ℕ) (fresh : ℕ → ℕ) (txns : List Transaction) (w : World) (r : Result Committed)
      → IsOutcome txns w r (finish_run host now fresh txns w r)
  unfolding finish_run
  finish_run-IsOutcome now fresh txns w (err e) = refl
  finish_run-IsOutcome now fresh txns w (ok c) =
      let start : World = record w { db = c.db } in
      reported-IsOutcome txns w c
        (propose_semantic_matches host (occurred_at_of txns now) fresh 0 c.semantic_matches start)
        (propose_semantic_matches-IsMailed (occurred_at_of txns now) fresh 0 c.semantic_matches
          start)
