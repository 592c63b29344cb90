-- ===== src/Proposals/Decide.antt =====
-- `approve`, `reject` and `_apply` of backend/src/domains/intelligence/proposal_service.py. A call
-- leaves the world that it has committed, also when it raises: both decisions stand beside it.
use finguard.Base.{ℕ, ◌==◌, Bool, true, false, not, Option, none, some, String, if◌then◌else◌}
use finguard.Core.Errors.{AppError, Result, ok, err, ◌>>=◌, ◌>>◌, raise_if, or_raise}
use finguard.Core.Errors.AppError.{not_found, forbidden, unprocessable, app_error, database_error}
use finguard.Inventory.Rows.{Warehouse}
use finguard.Finance.Rows.{Payment}
use finguard.Finance.Db.{Db}
use finguard.Reconciliation.Settle.{apply_confirmed_match}
use finguard.Proposals.StockTool.{ToolStatus, ToolResult, propose_stock_movement}
use finguard.Proposals.World.{
  ProposalStatus, ActionType, stock_adjustment, reconciliation_match, other, same_action, Payload,
  stock, reconciliation, AppliedRef, AgentActionProposal, World, find_proposal, save_proposal,
}

abbrev pub is_open : ProposalStatus → Bool
is_open ProposalStatus.proposed = true
is_open status = false

-- `proposal.triggered_by is not None and proposal.triggered_by == current_user.id`
abbrev pub is_requester : Option ℕ → ℕ → Bool
is_requester none user = false
is_requester (some requester) user = requester == user

-- `proposal.payload_hash is not None and payload_hash(payload) != proposal.payload_hash`
abbrev pub is_tampered : Option ℕ → ℕ → Bool
is_tampered none actual = false
is_tampered (some stored) actual = not (actual == stored)

-- The guards that both decisions begin with.
unfoldable pub review_guards : ℕ → ℕ → ActionType → World → Result AgentActionProposal
review_guards proposal_id user expected w = do
  p ← or_raise (find_proposal proposal_id w) not_found
  raise_if (not (same_action p.action_type expected)) forbidden
  raise_if (not (is_open p.status)) unprocessable
  raise_if (is_requester p.triggered_by user) forbidden
  ok p

-- The guards of `approve`.
unfoldable pub approve_guards :
    (Payload → ℕ) → ℕ → ℕ → ActionType → World → Result AgentActionProposal
unfolding review_guards
approve_guards payload_hash proposal_id user expected w = do
  p ← review_guards proposal_id user expected w
  raise_if (is_tampered p.payload_hash (payload_hash p.payload)) forbidden
  ok p

abbrev pub claimed : ProposalStatus → ℕ → ℕ → AgentActionProposal → AgentActionProposal
claimed status user now p = record p {
  status = status;
  reviewed_by = some user;
  reviewed_at = some now;
}

-- The tool's answer to an approved stock action, by its status.
abbrev pub stock_applied_as :
    ToolStatus → ToolResult × Warehouse → World → Result (AppliedRef × World)
stock_applied_as ToolStatus.applied r w =
    ok (AppliedRef.movement r.0.movement, record w { warehouse = r.1 })
stock_applied_as status r w = err unprocessable

-- The settlement, if there was something left to pay.
abbrev pub match_applied_as : Option Payment → Db → World → Result (AppliedRef × World)
match_applied_as none db w = err unprocessable
match_applied_as (some p) db w = ok (AppliedRef.payment p.id, record w { db = db })

-- `_apply`. The arguments that the payload of another action lacks are a `KeyError`.
unfoldable pub apply_action :
    (String → Option ℕ) → ActionType → Payload → ℕ → ℕ → ℕ → World → Result (AppliedRef × World)
apply_action parse_uuid stock_adjustment (stock args) user now payment_id w = do
  r ← propose_stock_movement parse_uuid args true (some user) now w.warehouse
  stock_applied_as r.0.status r w
apply_action parse_uuid reconciliation_match (reconciliation m occurred_at) user now payment_id w =
    do r ← apply_confirmed_match m occurred_at payment_id w.db; match_applied_as r.0 r.1 w
apply_action parse_uuid (other s) payload user now payment_id w = err unprocessable
apply_action parse_uuid action payload user now payment_id w = err app_error

-- The driver failed at a flush: the session refuses every commit until it is rolled back.
abbrev pub is_database_error : AppError → Bool
is_database_error database_error = true
is_database_error e = false

-- The claim is given back when the write is refused.
abbrev pub unclaimed : AgentActionProposal → AgentActionProposal
unclaimed p = record p { status = ProposalStatus.proposed; reviewed_by = none; reviewed_at = none }

-- What follows the write. The commit that gives the claim back fails too after a failed flush,
-- since nothing rolls the session back: the claim, committed before, stays.
unfoldable pub settle_claim :
    AgentActionProposal → World → Result (AppliedRef × World) → Result AgentActionProposal × World
settle_claim claim w (err e) =
    (err e, if is_database_error e then w else save_proposal (unclaimed claim) w)
settle_claim claim w (ok r) =
    let done = record claim { applied_ref = some r.0 } in (ok done, save_proposal done r.1)

-- The claim, the write, and what follows it.
unfoldable pub release :
    (String → Option ℕ)
    → ℕ
    → ℕ
    → ℕ
    → World
    → Result AgentActionProposal
    → Result AgentActionProposal × World
unfolding settle_claim
release parse_uuid user now payment_id w (err e) = (err e, w)
release parse_uuid user now payment_id w (ok p) =
    let claim = claimed ProposalStatus.applied user now p in
    let held = save_proposal claim w in
    settle_claim claim held
      (apply_action parse_uuid p.action_type p.payload user now payment_id held)

-- `approve`
unfoldable pub approve :
    (Payload → ℕ)
    → (String → Option ℕ)
    → ℕ
    → ℕ
    → ActionType
    → ℕ
    → ℕ
    → World
    → Result AgentActionProposal × World
unfolding approve_guards release
approve payload_hash parse_uuid proposal_id user expected now payment_id w =
    release parse_uuid user now payment_id w
      (approve_guards payload_hash proposal_id user expected w)

abbrev pub declined :
    ℕ → ℕ → World → Result AgentActionProposal → Result AgentActionProposal × World
declined user now w (err e) = (err e, w)
declined user now w (ok p) =
    let row = claimed ProposalStatus.rejected user now p in (ok row, save_proposal row w)

-- `reject`
unfoldable pub reject : ℕ → ℕ → ActionType → ℕ → World → Result AgentActionProposal × World
unfolding review_guards
reject proposal_id user expected now w =
    declined user now w (review_guards proposal_id user expected w)
