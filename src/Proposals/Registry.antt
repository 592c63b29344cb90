-- ===== src/Proposals/Registry.antt =====
-- What each agent may change: `AGENT_REGISTRY` and `mutation_kinds` of
-- backend/src/domains/intelligence/agent_registry.py, without the other fields of a descriptor.
use text.Mathlib.Text.{◌==◌ as str_eq}
use finguard.Base.{Bool, true, false, ◌||◌, List, [], ◌∷◌, String, if◌then◌else◌}

pub data MutationKind : Type 0 where
  proposal event direct_write : MutationKind

pub record AgentDescriptor : Type 0 where
  pub agent_id : String
  pub mutations : List MutationKind

-- An agent that declares no mutation.
abbrev reader : String → AgentDescriptor
reader agent_id = record { agent_id = agent_id; mutations = [] }

abbrev pub agent_registry : List AgentDescriptor
agent_registry =
    reader "J"
    ∷ reader "H"
    ∷ reader "G"
    ∷ reader "F"
    ∷ reader "D"
    ∷ record { agent_id = "E"; mutations = MutationKind.event ∷ MutationKind.direct_write ∷ [] }
    ∷ record { agent_id = "C"; mutations = MutationKind.direct_write ∷ MutationKind.proposal ∷ [] }
    ∷ reader "I"
    ∷ reader "A"
    ∷ record { agent_id = "B"; mutations = MutationKind.direct_write ∷ [] }
    ∷ record { agent_id = "K"; mutations = MutationKind.proposal ∷ [] }
    ∷ []

unfoldable pub mutations_in : String → List AgentDescriptor → List MutationKind
mutations_in agent_id [] = []
mutations_in agent_id (d ∷ ds) =
    if str_eq d.agent_id agent_id then d.mutations else mutations_in agent_id ds

-- `mutation_kinds`
unfoldable pub mutation_kinds : String → List MutationKind
unfolding mutations_in
mutation_kinds agent_id = mutations_in agent_id agent_registry

abbrev is_kind : MutationKind → MutationKind → Bool
is_kind MutationKind.proposal MutationKind.proposal = true
is_kind MutationKind.event MutationKind.event = true
is_kind MutationKind.direct_write MutationKind.direct_write = true
is_kind a b = false

-- `kind in mutation_kinds(agent_id)`
unfoldable pub has_kind : MutationKind → List MutationKind → Bool
has_kind kind [] = false
has_kind kind (k ∷ ks) = is_kind kind k || has_kind kind ks
