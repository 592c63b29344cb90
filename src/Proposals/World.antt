-- ===== src/Proposals/World.antt =====
-- The proposals and what they act on: `AgentActionProposal` of
-- backend/src/domains/intelligence/models.py, beside the finance tables and the stock.
use text.Mathlib.Text.{◌==◌ as str_eq}
use finguard.Base.{ℕ, Bool, true, false, Option, List, ◌++◌, ◌∷◌, [], String}
use finguard.Base.Table.{find_row, save_row}
use finguard.Inventory.Rows.{Warehouse, StockMovement}
use finguard.Finance.Db.{Db}
use finguard.Reconciliation.Match.{ReconciliationMatch}
use finguard.Proposals.StockTool.{StockArgs}

pub data ProposalStatus : Type 0 where
  proposed applied rejected : ProposalStatus

-- `ACTION_STOCK_ADJUSTMENT`, `ACTION_RECONCILIATION_MATCH`; any other text is an unknown action.
pub data ActionType : Type 0 where
  stock_adjustment reconciliation_match : ActionType
  other : String → ActionType

abbrev pub same_action : ActionType → ActionType → Bool
same_action stock_adjustment stock_adjustment = true
same_action reconciliation_match reconciliation_match = true
same_action (other a) (other b) = str_eq a b
same_action a b = false

-- The arguments of the write that an approval replays; a match carries its `occurred_at`.
pub data Payload : Type 0 where
  stock : StockArgs → Payload
  reconciliation : ReconciliationMatch → ℕ → Payload

-- What the write made.
pub data AppliedRef : Type 0 where
  movement : Option StockMovement → AppliedRef
  payment : ℕ → AppliedRef

pub record AgentActionProposal : Type 0 where
  pub id : ℕ
  pub agent_label : String
  pub action_type : ActionType
  pub payload : Payload
  pub payload_hash : Option ℕ
  pub status : ProposalStatus
  pub rationale : Option String
  pub triggered_by : Option ℕ
  pub reviewed_by : Option ℕ
  pub reviewed_at : Option ℕ
  pub applied_ref : Option AppliedRef

pub record World : Type 0 where
  pub db : Db
  pub warehouse : Warehouse
  pub proposals : List AgentActionProposal

abbrev pub find_proposal : ℕ → World → Option AgentActionProposal
find_proposal i w = find_row (λ (p : AgentActionProposal). p.id) i w.proposals

abbrev pub save_proposal : AgentActionProposal → World → World
save_proposal p w = record w {
  proposals = save_row (λ (p : AgentActionProposal). p.id) p w.proposals;
}

abbrev pub add_proposal : AgentActionProposal → World → World
add_proposal p w = record w { proposals = w.proposals ++ p ∷ [] }
