-- ===== src/Proposals/Kept.antt =====
-- Each call of the service changes at most one proposal, along the diagram.
use mathlib.Core.Path.{subst}
use finguard.Base.{
  ℕ, ◌≡◌, refl, sym, ap, ◌∙◌, Bool, true, false, not, Option, none, some, String, if_elim, inl, inr,
}
use finguard.Base.Table.{save_row, save_row-save_row}
use finguard.Core.Errors.{AppError, Result, ok, err, Ensures}
use finguard.Inventory.Stock.{IsConsistent}
use finguard.Finance.Invoices.Invariant.{Inv}
use finguard.Proposals.World.{
  ProposalStatus, ActionType, Payload, AppliedRef, AgentActionProposal, World, find_proposal,
  save_proposal,
}
use finguard.Proposals.Registry.{MutationKind, mutation_kinds, has_kind}
use finguard.Proposals.Create.{
  ProposalRequest, proposal_row, agent_id_of, notify_release, create_proposal,
}
use finguard.Proposals.Decide.{is_open, claimed, approve, declined, review_guards, reject}
use finguard.Proposals.Lifecycle.{
  IsReviewable, review_guards-IsReviewable, AllOrderly, open_row, Leaves, IsReleased, IsStuck,
  IsRefused, approve-IsReleased,
}
use finguard.Proposals.Books.{Keeping, apply_action-Keeping}
use finguard.Proposals.Change.{Change, ◌⟶◌, Follows}

-- What is kept in one call: the books, the stock, and the table of proposals up to a change.
pub record Kept (locked : Bool) (w w' : World) : Type 0 where
  pub change : Change w w'
  pub books : Inv locked w.db → Inv locked w'.db
  pub stock : IsConsistent w.warehouse → IsConsistent w'.warehouse

pub unchanged : (locked : Bool) (w w' : World) → w' ≡ w → Kept locked w w'
unchanged locked w w' e = record {
  change = Change.same (ap (λ (x : World). x.proposals) e);
  books = λ h. subst (λ (x : World). Inv locked x.db) (sym e) h;
  stock = λ h. subst (λ (x : World). IsConsistent x.warehouse) (sym e) h;
}

-- A waiting row and its decision.
opened :
    (s : ProposalStatus) (target : ProposalStatus)
    → is_open s ≡ true
    → ProposalStatus.proposed ⟶ target
    → s ⟶ target
opened ProposalStatus.proposed target h a = a
opened ProposalStatus.applied target h a = cc
opened ProposalStatus.rejected target h a = cc

closed : {A : Type 0} (s : ProposalStatus) → is_open s ≡ true → is_open s ≡ false → A
closed s h k = cc

decided-Follows :
    (p : AgentActionProposal) (status : ProposalStatus) (user now : ℕ) (ref : Option AppliedRef)
    → is_open p.status ≡ true
    → ProposalStatus.proposed ⟶ status
    → Follows p (record (claimed status user now p) { applied_ref = ref })
decided-Follows p status user now ref o a = record {
  fingerprint = refl;
  action = refl;
  requester = refl;
  moves = opened p.status status o a;
  reviewer = λ h. closed p.status o h;
  made = λ h. closed p.status o h;
}

module _ (payload_hash : Payload → ℕ) (parse_uuid : String → Option ℕ)
    (task_vc : ProposalRequest → ℕ → Bool) where
  released-Kept :
      (locked : Bool) (id user : ℕ) (expected : ActionType) (now payment_id : ℕ) (w : World)
      (p : AgentActionProposal) (w' : World)
      → IsReleased payload_hash parse_uuid id user expected now payment_id w p w'
      → Kept locked w w'
  released-Kept locked id user expected now payment_id w p w' r =
      let row = r.row in
      let claim = claimed ProposalStatus.applied user now row in
      let done = record claim { applied_ref = some r.made } in
      let kept : Keeping locked (save_proposal claim w) r.after =
        subst (Ensures (λ x. Keeping locked (save_proposal claim w) x.1)) r.written (
          apply_action-Keeping locked parse_uuid row.action_type row.payload user now payment_id
            (save_proposal claim w)) in
      let key = λ (q : AgentActionProposal). q.id in
      rw (r.is_stored, r.is_result)
        (record {
          change =
              Change.update id row done r.reviewable.is_row refl
                (ap (save_row key done) kept.proposals
                  ∙ save_row-save_row key done claim w.proposals refl)
                (decided-Follows row ProposalStatus.applied user now (some r.made)
                  r.reviewable.pending ◌⟶◌.apply)
                (user, refl, r.reviewable.other);
          books = kept.books;
          stock = kept.stock;
        })

  stuck-Kept :
      (locked : Bool) (id user : ℕ) (expected : ActionType) (now payment_id : ℕ) (w : World)
      (e : AppError) (w' : World)
      → IsStuck payload_hash parse_uuid id user expected now payment_id w e w'
      → Kept locked w w'
  stuck-Kept locked id user expected now payment_id w e w' s =
      let row = s.row in
      rw s.is_stored (record {
        change =
            Change.update id row (claimed ProposalStatus.applied user now row) s.reviewable.is_row
              refl refl
              (decided-Follows row ProposalStatus.applied user now row.applied_ref
                s.reviewable.pending ◌⟶◌.apply)
              (user, refl, s.reviewable.other);
        books = λ b. b;
        stock = λ c. c;
      })

  left-Kept :
      (locked : Bool) (id user : ℕ) (expected : ActionType) (now payment_id : ℕ) (w : World)
      (r : Result AgentActionProposal) (w' : World)
      → Leaves
          (IsReleased payload_hash parse_uuid id user expected now payment_id w)
          (IsRefused payload_hash parse_uuid id user expected now payment_id w)
          (r, w')
      → Kept locked w w'
  left-Kept locked id user expected now payment_id w (ok p) w' h =
      released-Kept locked id user expected now payment_id w p w' h
  left-Kept locked id user expected now payment_id w (err e) w' (inl h) = unchanged locked w w' h
  left-Kept locked id user expected now payment_id w (err e) w' (inr h) =
      stuck-Kept locked id user expected now payment_id w e w' h

  pub approve-Kept :
      (locked : Bool) (id user : ℕ) (expected : ActionType) (now payment_id : ℕ) (w : World)
      → AllOrderly w
      → Kept locked w (approve payload_hash parse_uuid id user expected now payment_id w).1
  approve-Kept locked id user expected now payment_id w h =
      let r = approve payload_hash parse_uuid id user expected now payment_id w in
      left-Kept locked id user expected now payment_id w r.0 r.1
        (approve-IsReleased payload_hash parse_uuid id user expected now payment_id w h)

  declined-Kept :
      (locked : Bool) (id user : ℕ) (expected : ActionType) (now : ℕ) (w : World)
      (g : Result AgentActionProposal)
      → Ensures (IsReviewable id user expected w) g
      → AllOrderly w
      → Kept locked w (declined user now w g).1
  declined-Kept locked id user expected now w (err e) g h = unchanged locked w w refl
  declined-Kept locked id user expected now w (ok p) g h =
      let waits =
        open_row p.status p.triggered_by p.reviewed_by p.reviewed_at p.applied_ref g.pending
          (h.rows id p g.is_row) in
      record {
        change =
            Change.update id p (claimed ProposalStatus.rejected user now p) g.is_row refl refl
              (decided-Follows p ProposalStatus.rejected user now p.applied_ref g.pending
                ◌⟶◌.decline)
              (user, refl, g.other, waits.3);
        books = λ b. b;
        stock = λ c. c;
      }

  pub reject-Kept :
      (locked : Bool) (id user : ℕ) (expected : ActionType) (now : ℕ) (w : World)
      → AllOrderly w
      → Kept locked w (reject id user expected now w).1
  unfolding reject
  reject-Kept locked id user expected now w h =
      declined-Kept locked id user expected now w (review_guards id user expected w)
        (review_guards-IsReviewable id user expected w) h

  pub create_proposal-Kept :
      (locked : Bool) (body : ProposalRequest) (id : ℕ) (w : World)
      → find_proposal id w ≡ none
      → Kept locked w (create_proposal payload_hash task_vc body id w).1
  unfolding create_proposal notify_release
  create_proposal-Kept locked body id w fresh =
      let K = λ (r : Result AgentActionProposal × World). Kept locked w r.1 in
      if_elim K
        (not (
          has_kind MutationKind.proposal
            (mutation_kinds (agent_id_of body.action_type body.agent_label))))
        _ _ (unchanged locked w w refl)
        (if_elim K (not (task_vc body id)) _ _ (unchanged locked w w refl) (record {
          change = Change.insert (proposal_row payload_hash body id) fresh refl (refl, refl, refl);
          books = λ b. record { tracked = b.tracked };
          stock = λ c. c;
        }))
