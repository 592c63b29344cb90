-- ===== src/Proposals/Lifecycle.antt =====
-- The life of a proposal: what a decision needs, what it does, and that it is final.
use finguard.Base.{
  ℕ, ◌≡◌, refl, sym, ◌∙◌, Bool, true, false, not, Option, none, some, String, arith, ◌⊎◌, inl, inr,
  if_cases,
}
use finguard.Base.Table.{save_row-save_row, save_row-same}
use finguard.Core.Errors.{
  AppError, Result, ok, err, Ensures, Ensures-or_raise, Ensures-raise_if, Ensures-bind,
}
use finguard.Proposals.World.{
  ProposalStatus, ActionType, same_action, Payload, AppliedRef, AgentActionProposal, World,
  find_proposal, save_proposal,
}
use finguard.Proposals.Decide.{
  is_open, is_requester, is_tampered, review_guards, approve_guards, claimed, apply_action,
  is_database_error, unclaimed, settle_claim, release, approve,
}

-- What the guards of a decision establish.
pub record IsReviewable (proposal_id user : ℕ) (expected : ActionType) (w : World)
    (p : AgentActionProposal) : Type 0 where
  pub is_row : find_proposal proposal_id w ≡ some p
  pub action : same_action p.action_type expected ≡ true
  pub pending : is_open p.status ≡ true
  pub other : is_requester p.triggered_by user ≡ false

of_not : (b : Bool) → not b ≡ false → b ≡ true
of_not b h = ground arith

pub review_guards-IsReviewable :
    (proposal_id user : ℕ) (expected : ActionType) (w : World)
    → Ensures (IsReviewable proposal_id user expected w) (review_guards proposal_id user expected w)
unfolding review_guards
review_guards-IsReviewable proposal_id user expected w =
    Ensures-or_raise _ (find_proposal proposal_id w) _ _ λ p e.
      Ensures-raise_if _ (not (same_action p.action_type expected)) _ _ λ a.
        Ensures-raise_if _ (not (is_open p.status)) _ _ λ o.
          Ensures-raise_if _ (is_requester p.triggered_by user) _ _
            λ r. record { is_row = e; action = of_not _ a; pending = of_not _ o; other = r }

approve_guards-lem :
    (payload_hash : Payload → ℕ) (proposal_id user : ℕ) (expected : ActionType) (w : World)
    → Ensures
        (λ p.
          IsReviewable proposal_id user expected w p
          × (is_tampered p.payload_hash (payload_hash p.payload) ≡ false))
        (approve_guards payload_hash proposal_id user expected w)
unfolding approve_guards
approve_guards-lem payload_hash proposal_id user expected w =
    Ensures-bind _ (IsReviewable proposal_id user expected w)
      (review_guards proposal_id user expected w) _
      (review_guards-IsReviewable proposal_id user expected w)
      λ p h.
        Ensures-raise_if _ (is_tampered p.payload_hash (payload_hash p.payload)) _ _ λ t. (h, t)

-- How a row may look: a proposal that waits has no reviewer, and a decided one has a reviewer who
-- did not trigger it; only one that was applied may name what its write made.
abbrev pub Fits : ProposalStatus → Option ℕ → Option ℕ → Option ℕ → Option AppliedRef → Type 0
Fits ProposalStatus.proposed requester reviewer at ref =
    (reviewer ≡ none) × (at ≡ none) × (ref ≡ none)
Fits ProposalStatus.applied requester reviewer at ref =
    (u : ℕ) × (reviewer ≡ some u) × (is_requester requester u ≡ false)
Fits ProposalStatus.rejected requester reviewer at ref =
    (u : ℕ) × (reviewer ≡ some u) × (is_requester requester u ≡ false) × (ref ≡ none)

abbrev pub IsOrderly : AgentActionProposal → Type 0
IsOrderly p = Fits p.status p.triggered_by p.reviewed_by p.reviewed_at p.applied_ref

pub record AllOrderly (w : World) : Type 0 where
  pub rows : (i : ℕ) (p : AgentActionProposal) → find_proposal i w ≡ some p → IsOrderly p

pub open_row :
    (s : ProposalStatus) (requester reviewer at : Option ℕ) (ref : Option AppliedRef)
    → is_open s ≡ true
    → Fits s requester reviewer at ref
    → (s ≡ ProposalStatus.proposed) × (reviewer ≡ none) × (at ≡ none) × (ref ≡ none)
open_row ProposalStatus.proposed requester reviewer at ref o h = (refl, h.0, h.1, h.2)
open_row ProposalStatus.applied requester reviewer at ref o h = cc
open_row ProposalStatus.rejected requester reviewer at ref o h = cc

-- Giving a claim back restores the row.
unclaimed-claimed :
    (user now : ℕ) (p : AgentActionProposal)
    → is_open p.status ≡ true
    → IsOrderly p
    → unclaimed (claimed ProposalStatus.applied user now p) ≡ p
unclaimed-claimed user now p o h =
    let (s, r, t, _) =
      open_row p.status p.triggered_by p.reviewed_by p.reviewed_at p.applied_ref o h in
    λ i. record p { status = sym s i; reviewed_by = sym r i; reviewed_at = sym t i }

restored :
    (proposal_id user now : ℕ) (w : World) (p : AgentActionProposal)
    → find_proposal proposal_id w ≡ some p
    → is_open p.status ≡ true
    → IsOrderly p
    → save_proposal
        (unclaimed (claimed ProposalStatus.applied user now p))
        (save_proposal (claimed ProposalStatus.applied user now p) w)
      ≡ w
restored proposal_id user now w p e o h =
    let key = λ (q : AgentActionProposal). q.id in
    let claim = claimed ProposalStatus.applied user now p in
    rw (unclaimed-claimed user now p o h) (λ i. record w {
      proposals =
          (save_row-save_row key p claim w.proposals refl
              ∙ save_row-same key proposal_id p w.proposals e)
            i;
    })

-- What a call leaves: its result and world, or the exception and the world.
abbrev pub Leaves :
    (AgentActionProposal → World → Type 0)
    → (AppError → World → Type 0)
    → Result AgentActionProposal × World
    → Type 0
Leaves P Q (ok p, w) = P p w
Leaves P Q (err e, w) = Q e w

module _ (payload_hash : Payload → ℕ) (parse_uuid : String → Option ℕ) (proposal_id user : ℕ)
    (expected : ActionType) (now payment_id : ℕ) (w : World) where
  -- An approval: of a waiting proposal of the expected action, that another person triggered and
  -- nobody altered; its write was made once, and the row names the reviewer and what was made.
  pub record IsReleased (p' : AgentActionProposal) (w' : World) : Type 0 where
    pub row : AgentActionProposal
    pub reviewable : IsReviewable proposal_id user expected w row
    pub intact : is_tampered row.payload_hash (payload_hash row.payload) ≡ false
    pub made : AppliedRef
    pub after : World
    pub written :
        apply_action parse_uuid row.action_type row.payload user now payment_id
          (save_proposal (claimed ProposalStatus.applied user now row) w)
        ≡ ok (made, after)
    pub is_result : p' ≡ record row {
      status = ProposalStatus.applied;
      reviewed_by = some user;
      reviewed_at = some now;
      applied_ref = some made;
    }
    pub is_stored : w' ≡ save_proposal p' after

  -- An approval that got stuck: its write failed at a flush, and the claim is left.
  pub record IsStuck (e : AppError) (w' : World) : Type 0 where
    pub row : AgentActionProposal
    pub reviewable : IsReviewable proposal_id user expected w row
    pub intact : is_tampered row.payload_hash (payload_hash row.payload) ≡ false
    pub database : is_database_error e ≡ true
    pub failed :
        apply_action parse_uuid row.action_type row.payload user now payment_id
          (save_proposal (claimed ProposalStatus.applied user now row) w)
        ≡ err e
    pub is_stored : w' ≡ save_proposal (claimed ProposalStatus.applied user now row) w

  -- An approval that raises: nothing has changed, or it got stuck.
  abbrev pub IsRefused : AppError → World → Type 0
  IsRefused e w' = (w' ≡ w) ⊎ IsStuck e w'

  settle_claim-lem :
      (p : AgentActionProposal)
      → IsReviewable proposal_id user expected w p
      → is_tampered p.payload_hash (payload_hash p.payload) ≡ false
      → IsOrderly p
      → (r : Result (AppliedRef × World))
      → apply_action parse_uuid p.action_type p.payload user now payment_id
          (save_proposal (claimed ProposalStatus.applied user now p) w)
        ≡ r
      → Leaves IsReleased IsRefused (
          settle_claim
            (claimed ProposalStatus.applied user now p)
            (save_proposal (claimed ProposalStatus.applied user now p) w)
            r)
  unfolding settle_claim
  settle_claim-lem p g t h (err e) q =
      if_cases (IsRefused e) (is_database_error e) _ _
        (λ d. inr (record {
          row = p;
          reviewable = g;
          intact = t;
          database = d;
          failed = q;
          is_stored = refl;
        }))
        (λ d. inl (restored proposal_id user now w p g.is_row g.pending h))
  settle_claim-lem p g t h (ok r) q = record {
    row = p;
    reviewable = g;
    intact = t;
    made = r.0;
    after = r.1;
    written = q;
    is_result = refl;
    is_stored = refl;
  }

  release-lem :
      (g : Result AgentActionProposal)
      → AllOrderly w
      → Ensures
          (λ p.
            IsReviewable proposal_id user expected w p
            × (is_tampered p.payload_hash (payload_hash p.payload) ≡ false))
          g
      → Leaves IsReleased IsRefused (release parse_uuid user now payment_id w g)
  unfolding release
  release-lem (err e) h g = inl refl
  release-lem (ok p) h g = settle_claim-lem p g.0 g.1 (h.rows proposal_id p g.0.is_row) _ refl

  -- In a world whose proposals are orderly, that is, one that waits has no reviewer and a
  -- decided one was reviewed by another than its requester, an approval that returns was of a
  -- waiting proposal of the expected action, whose requester is another person and whose payload
  -- has the stored fingerprint, if one is stored; its write was made once, from that payload,
  -- and the row names the reviewer and what was made. An approval that raises leaves the world
  -- as it was, or it got stuck: the write of such a proposal failed with a database error, and
  -- the proposal stays applied, under the reviewer's name, with nothing else written.
  pub approve-IsReleased :
      AllOrderly w
      → Leaves IsReleased IsRefused
          (approve payload_hash parse_uuid proposal_id user expected now payment_id w)
  unfolding approve
  approve-IsReleased h =
      release-lem (approve_guards payload_hash proposal_id user expected w) h
        (approve_guards-lem payload_hash proposal_id user expected w)
