-- ===== src/Proposals/Create.antt =====
-- `create_proposal` of backend/src/domains/intelligence/proposal_service.py.
use finguard.Base.{ℕ, Bool, not, Option, none, some, String, if◌then◌else◌}
use finguard.Core.Errors.{Result, ok, err}
use finguard.Core.Errors.AppError.{app_error}
use finguard.Identity.Permissions.{Permission, inventory_adjust, finance_reconcile}
use finguard.Notifications.{EmailContext, proposal_review}
use finguard.Notifications.Reviewers.{notify_reviewers}
use finguard.Finance.Db.{Db}
use finguard.Proposals.Registry.{MutationKind, mutation_kinds, has_kind}
use finguard.Proposals.World.{
  ProposalStatus, ActionType, stock_adjustment, reconciliation_match, other, Payload,
  AgentActionProposal, World, add_proposal,
}

-- `_ACTION_AGENT_ID.get(action_type, agent_label)`
abbrev pub agent_id_of : ActionType → String → String
agent_id_of stock_adjustment agent_label = "K"
agent_id_of reconciliation_match agent_label = "C"
agent_id_of (other s) agent_label = agent_label

-- `_ACTION_NOTIFY_PERMISSION.get(action_type, Permission.INVENTORY_ADJUST)`
abbrev pub notify_permission : ActionType → Permission
notify_permission reconciliation_match = finance_reconcile
notify_permission action = inventory_adjust

-- The keyword arguments of `create_proposal`.
pub record ProposalRequest : Type 0 where
  pub agent_label : String
  pub action_type : ActionType
  pub payload : Payload
  pub triggered_by : Option ℕ
  pub rationale : Option String

abbrev text_or_empty : Option String → String
text_or_empty none = ""
text_or_empty (some s) = s

abbrev pub proposal_row : (Payload → ℕ) → ProposalRequest → ℕ → AgentActionProposal
proposal_row payload_hash body id = record {
  id = id;
  agent_label = body.agent_label;
  action_type = body.action_type;
  payload = body.payload;
  payload_hash = some (payload_hash body.payload);
  status = ProposalStatus.proposed;
  rationale = body.rationale;
  triggered_by = body.triggered_by;
  reviewed_by = none;
  reviewed_at = none;
  applied_ref = none;
}

-- The reviewers of the action are told.
unfoldable pub notify_release : ProposalRequest → ℕ → Db → Db
notify_release body id db = record db {
  mail =
      (notify_reviewers (notify_permission body.action_type) (proposal_review id)
        (EmailContext.approval_needed body.agent_label (text_or_empty body.rationale))
        body.triggered_by db.users db.mail).1;
}

-- `create_proposal`: the result, and the world that is left.
unfoldable pub create_proposal :
    (Payload → ℕ)
    → (ProposalRequest → ℕ → Bool)
    → ProposalRequest
    → ℕ
    → World
    → Result AgentActionProposal × World
unfolding notify_release mutation_kinds has_kind
create_proposal payload_hash task_vc body id w =
    let row = proposal_row payload_hash body id in
    if not (
      has_kind MutationKind.proposal
        (mutation_kinds (agent_id_of body.action_type body.agent_label)))
    then (err app_error, w)
    else if not (task_vc body id)
    then (err app_error, w)
    else (ok row, record (add_proposal row w) { db = notify_release body id w.db })
