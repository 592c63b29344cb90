-- ===== src/Proposals.antt =====
-- The approval of agent-proposed actions: `ProposalService` of
-- backend/src/domains/intelligence/proposal_service.py, with the mutation classes of
-- agent_registry.py. The fingerprint of a payload (`payload_hash`), the parser of uuids and the
-- check of an agent's credential (`require_task_vc`, whether it passes) are parameters. The signed
-- record of a decision is left out.
pub mod StockTool
pub mod World
pub mod Registry
pub mod Create
pub mod Decide
pub mod Lifecycle
pub mod Books
pub mod Change
pub mod Kept
pub mod Runs
