-- ===== src/Reconciliation/Batch/Script.antt =====
-- A run is a sequence of calls of the invoice service and of the service of proposals.
use mathlib.Core.Path.{subst}
use finguard.Base.{
  ℕ, ◌+◌, ◌≤◌, ◌==◌, ◌≡◌, refl, sym, ap, inl, inr, ◌∙◌, Bool, false, not, Option, none, List, [],
  ◌∷◌, ◌++◌, String, if_elim, Bool-cases, All, arith, eq_of_test,
}
use finguard.Base.Table.{find_row-append}
use finguard.Core.Errors.{Result, ok, err, Ensures, Ensures-bind, Ensures-if, Ensures-map}
use finguard.Finance.Rows.{Payment}
use finguard.Finance.Db.{Db}
use finguard.Finance.Invoices.Settle.{apply_reconciled_payment}
use finguard.Finance.Invoices.Preserve.Commands.{Command, execute, commit}
use finguard.Proposals.Registry.{MutationKind, mutation_kinds, has_kind}
use finguard.Proposals.World.{AgentActionProposal, World, find_proposal}
use finguard.Proposals.Create.{ProposalRequest, proposal_row, agent_id_of, create_proposal}
use finguard.Proposals.Runs.{Call, perform, IsAdmitted}
use finguard.Reconciliation.Match.{ReconciliationMatch}
use finguard.Reconciliation.Settle.{settlement_of, apply_confirmed_match}
use finguard.Reconciliation.Persist.{Host, Settling, skip_match, apply_matches}
use finguard.Reconciliation.Batch.{
  pending_exists, match_request, and_then, propose_semantic_matches,
}

module _ (host : Host) (parse_uuid : String → Option ℕ) (locked : Bool) (P : Call → Type 0) where
  abbrev step : Call → World → World
  step = perform host.payload_hash parse_uuid host.proposal_vc

  -- Admitted calls with `P`, one after another.
  pub data Script : World → World → Type 0 where
    done : {w : World} → Script w w
    call :
        {w w' : World} (c : Call)
        → P c
        → IsAdmitted host.payload_hash parse_uuid host.proposal_vc locked c w
        → Script (perform host.payload_hash parse_uuid host.proposal_vc c w) w'
        → Script w w'

  pub Script-again : {a b c : World} → Script a b → Script b c → Script a c
  Script-again Script.done t = t
  Script-again (Script.call c p a s) t = Script.call c p a (Script-again s t)

  commit-ok :
      (x : Result (Option Payment × Db)) (db : Db)
      → Ensures (λ (r : Option Payment × Db). commit x db ≡ r.1) x
  commit-ok (ok r) db = refl
  commit-ok (err e) db = tt

  abbrev with_db : World → Db → World
  with_db w db = record w { db = db }

  settlement_step :
      (w : World) (m : ReconciliationMatch) (t id : ℕ) (db : Db)
      → Ensures
          (λ (r : Option Payment × Db).
            step (Call.finance (Command.reconcile (settlement_of m.source m t) id)) (with_db w db)
            ≡ with_db w r.1)
          (apply_confirmed_match m t id db)
  unfolding perform execute apply_confirmed_match
  settlement_step w m t id db =
      let x = apply_reconciled_payment (settlement_of m.source m t) id db in
      Ensures-map (λ (r : Option Payment × Db). commit x db ≡ r.1) _ x (λ r e. ap (with_db w) e)
        (commit-ok x db)

  -- The settlements of a list of matches.
  pub apply_matches-Script :
      (w : World) (vc : ReconciliationMatch → Bool) (occurred_at : ReconciliationMatch → ℕ)
      (fresh : ℕ → ℕ) (n : ℕ) (ms : List ReconciliationMatch) (s : Settling)
      → All
          (λ (m : ReconciliationMatch).
            (id : ℕ)
            → P (Call.finance (Command.reconcile (settlement_of m.source m (occurred_at m)) id)))
          ms
      → Ensures
          (λ (t : Settling). Script (with_db w s.db) (with_db w t.db))
          (apply_matches vc occurred_at fresh n ms s)
  unfolding apply_matches
  apply_matches-Script w vc occurred_at fresh n [] s p = Script.done
  apply_matches-Script w vc occurred_at fresh n (m ∷ ms) s p =
      let Q = λ (t : Settling). Script (with_db w s.db) (with_db w t.db) in
      let c =
        Call.finance (Command.reconcile (settlement_of m.source m (occurred_at m)) (fresh n)) in
      Ensures-if Q (vc m) _ _
        (λ _.
          Ensures-bind Q (λ (r : Option Payment × Db). step c (with_db w s.db) ≡ with_db w r.1)
            (apply_confirmed_match m (occurred_at m) (fresh n) s.db) _
            (settlement_step w m (occurred_at m) (fresh n) s.db)
            (λ r e.
              let next = record s { db = r.1; applied = s.applied ++ m ∷ [] } in
              Ensures-map (λ (t : Settling). Script (with_db w r.1) (with_db w t.db)) Q
                (apply_matches vc occurred_at fresh (n + 1) ms next)
                (λ t q.
                  Script.call c (p.0 (fresh n)) tt
                    (subst (λ (x : World). Script x (with_db w t.db)) (sym e) q))
                (apply_matches-Script w vc occurred_at fresh (n + 1) ms next p.1)))
        (λ _. apply_matches-Script w vc occurred_at fresh n ms (skip_match m s) p.1)

  -- No proposal has one of the ids that the run may still draw.
  abbrev pub IsFresh : (ℕ → ℕ) → ℕ → World → Type 0
  IsFresh fresh n w = (k : ℕ) → n ≤ k → find_proposal (fresh k) w ≡ none

  create_proposal-find :
      (body : ProposalRequest) (id j : ℕ) (w : World)
      → find_proposal id w ≡ none
      → find_proposal j w ≡ none
      → (id == j) ≡ false
      → find_proposal j (create_proposal host.payload_hash host.proposal_vc body id w).1 ≡ none
  unfolding create_proposal
  create_proposal-find body id j w here there other =
      let N = λ (r : Result AgentActionProposal × World). find_proposal j r.1 ≡ none in
      if_elim N
        (not (
          has_kind MutationKind.proposal
            (mutation_kinds (agent_id_of body.action_type body.agent_label))))
        _ _ there
        (if_elim N (not (host.proposal_vc body id)) _ _ there (
          find_row-append (λ (p : AgentActionProposal). p.id) j
            (proposal_row host.payload_hash body id) w.proposals here
          ∙ rw other there))

  and_then-Script :
      (w : World) (x : Result AgentActionProposal × World)
      (rest : World → Result (Unit {0}) × World)
      → Script w x.1
      → Script x.1 (rest x.1).1
      → Script w (and_then x rest).1
  and_then-Script w (err e, x) rest s t = s
  and_then-Script w (ok p, x) rest s t = Script-again s t

  fresh-other :
      (fresh : ℕ → ℕ) (n k : ℕ)
      → ((a b : ℕ) → fresh a ≡ fresh b → a ≡ b)
      → n + 1 ≤ k
      → (fresh n == fresh k) ≡ false
  fresh-other fresh n k inj h = elim (Bool-cases (fresh n == fresh k)) [
    | inl e ↦ absurd (omega (arith, inj n k (eq_of_test (fresh n) (fresh k) e)))
    | inr e ↦ e
  ]

  -- The proposals for a list of matches.
  pub propose_semantic_matches-Script :
      (occurred_at : ReconciliationMatch → ℕ) (fresh : ℕ → ℕ) (n : ℕ)
      (ms : List ReconciliationMatch) (w : World)
      → ((a b : ℕ) → fresh a ≡ fresh b → a ≡ b)
      → IsFresh fresh n w
      → All
          (λ (m : ReconciliationMatch).
            (id : ℕ) → P (Call.create (match_request m (occurred_at m)) id))
          ms
      → Script w (propose_semantic_matches host occurred_at fresh n ms w).1
  unfolding propose_semantic_matches perform
  propose_semantic_matches-Script occurred_at fresh n [] w inj f p = Script.done
  propose_semantic_matches-Script occurred_at fresh n (m ∷ ms) w inj f p =
      let body = match_request m (occurred_at m) in
      let made = create_proposal host.payload_hash host.proposal_vc body (fresh n) w in
      let free = f n (omega arith) in
      if_elim (λ (r : Result (Unit {0}) × World). Script w r.1)
        (pending_exists m.transaction_id w.proposals) _ _
        (propose_semantic_matches-Script occurred_at fresh n ms w inj f p.1)
        (and_then-Script w made
          (λ next. propose_semantic_matches host occurred_at fresh (n + 1) ms next)
          (Script.call (Call.create body (fresh n)) (p.0 (fresh n)) free Script.done)
          (propose_semantic_matches-Script occurred_at fresh (n + 1) ms made.1 inj
            (λ k h.
              create_proposal-find body (fresh n) (fresh k) w free (f k (omega arith))
                (fresh-other fresh n k inj h))
            p.1))
