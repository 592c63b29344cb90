-- ===== src/Proposals/Runs.antt =====
-- Whatever calls reach the service of proposals, each proposal goes through its diagram once.
use finguard.Base.{
  ℕ, ◌==◌, ◌≡◌, refl, sym, ap, ◌∙◌, Bool, false, not, Option, none, some, String, arith,
}
use finguard.Core.Errors.{Result, ok, err}
use finguard.Inventory.Stock.{IsConsistent}
use finguard.Finance.Invoices.Invariant.{Inv}
use finguard.Finance.Invoices.Preserve.Commands.{Command, execute, IsAccepted, execute-Inv}
use finguard.Proposals.World.{
  ActionType, Payload, AgentActionProposal, World, find_proposal, save_proposal,
}
use finguard.Proposals.Create.{ProposalRequest, create_proposal}
use finguard.Proposals.Decide.{is_tampered, approve, reject}
use finguard.Proposals.Lifecycle.{AllOrderly, Leaves, IsReleased, IsRefused, approve-IsReleased}
use finguard.Proposals.Change.{
  Change, ◌⟶◌, Follows-self, Follows-again, IsNext, Change-IsNext, Change-AllOrderly,
}
use finguard.Proposals.Kept.{Kept, unchanged, approve-Kept, reject-Kept, create_proposal-Kept}

-- One call: of the service of proposals, of the invoice service, or a hand on a stored payload.
pub data Call : Type 0 where
  create : ProposalRequest → ℕ → Call
  release_one : ℕ → ℕ → ActionType → ℕ → ℕ → Call
  decline_one : ℕ → ℕ → ActionType → ℕ → Call
  finance : Command → Call
  alter : ℕ → Payload → Call

-- The tables of a world in which all is in order.
pub record Books (locked : Bool) (w : World) : Type 0 where
  pub orderly : AllOrderly w
  pub finance : Inv locked w.db
  pub stock : IsConsistent w.warehouse

module _ (payload_hash : Payload → ℕ) (parse_uuid : String → Option ℕ)
    (task_vc : ProposalRequest → ℕ → Bool) where
  altered : Option AgentActionProposal → Payload → World → World
  altered none payload w = w
  altered (some p) payload w = save_proposal (record p { payload = payload }) w

  unfoldable pub perform : Call → World → World
  unfolding altered
  perform (create body id) w = (create_proposal payload_hash task_vc body id w).1
  perform (release_one id user expected now payment_id) w =
      (approve payload_hash parse_uuid id user expected now payment_id w).1
  perform (decline_one id user expected now) w = (reject id user expected now w).1
  perform (finance c) w = record w { db = execute c w.db }
  perform (alter id payload) w = altered (find_proposal id w) payload w

  -- A new uuid is new, and an invoice request passes its schema.
  abbrev pub IsAdmitted : Bool → Call → World → Type 0
  IsAdmitted locked (create body id) w = find_proposal id w ≡ none
  IsAdmitted locked (finance c) w = IsAccepted locked c w.db
  IsAdmitted locked c w = Unit

  altered-Kept :
      (locked : Bool) (id : ℕ) (o : Option AgentActionProposal) (payload : Payload) (w : World)
      → find_proposal id w ≡ o
      → AllOrderly w
      → Kept locked w (altered o payload w)
  unfolding altered
  altered-Kept locked id none payload w e h = unchanged locked w w refl
  altered-Kept locked id (some p) payload w e h = record {
    change =
        Change.update id p (record p { payload = payload }) e refl refl
          (record {
            fingerprint = refl;
            action = refl;
            requester = refl;
            moves = ◌⟶◌.stay;
            reviewer = λ d. refl;
            made = λ d. refl;
          })
          (h.rows id p e);
    books = λ b. b;
    stock = λ c. c;
  }

  perform-Kept :
      (locked : Bool) (c : Call) (w : World)
      → IsAdmitted locked c w
      → AllOrderly w
      → Kept locked w (perform c w)
  unfolding perform
  perform-Kept locked (create body id) w a h =
      create_proposal-Kept payload_hash parse_uuid task_vc locked body id w a
  perform-Kept locked (release_one id user expected now payment_id) w a h =
      approve-Kept payload_hash parse_uuid task_vc locked id user expected now payment_id w h
  perform-Kept locked (decline_one id user expected now) w a h =
      reject-Kept payload_hash parse_uuid task_vc locked id user expected now w h
  perform-Kept locked (finance c) w a h = record {
    change = Change.same refl;
    books = execute-Inv locked c w.db a;
    stock = λ s. s;
  }
  perform-Kept locked (alter id payload) w a h =
      altered-Kept locked id (find_proposal id w) payload w refl h

  -- The worlds that admitted calls lead to.
  pub data Reach (locked : Bool) (start : World) : World → Type 0 where
    here : Reach locked start start
    next :
        {w : World} (c : Call)
        → Reach locked start w
        → IsAdmitted locked c w
        → Reach locked start (perform c w)

  pub Reach-Books :
      (locked : Bool) (start : World) {w : World}
      → Books locked start
      → Reach locked start w
      → Books locked w
  Reach-Books locked start h Reach.here = h
  Reach-Books locked start h (Reach.next {w} c r a) =
      let before = Reach-Books locked start h r in
      let kept = perform-Kept locked c w a before.orderly in
      record {
        orderly = Change-AllOrderly w (perform c w) kept.change before.orderly;
        finance = kept.books before.finance;
        stock = kept.stock before.stock;
      }

  Reach-AllOrderly :
      (locked : Bool) (start : World) {w : World}
      → AllOrderly start
      → Reach locked start w
      → AllOrderly w
  Reach-AllOrderly locked start h Reach.here = h
  Reach-AllOrderly locked start h (Reach.next {w} c r a) =
      let before = Reach-AllOrderly locked start h r in
      Change-AllOrderly w (perform c w) (perform-Kept locked c w a before).change before

  -- Through any admitted calls (creations under a new id, approvals, rejections, requests to the
  -- invoice service and changes of stored payloads by hand) from a world whose proposals are
  -- orderly, a proposal that is there stays, keeps its fingerprint, action and requester, and
  -- its status follows the diagram, from proposed once to applied or rejected; a decision keeps
  -- its reviewer and what it made.
  pub Reach-IsNext :
      (locked : Bool) (start : World) {w : World} (j : ℕ) (p : AgentActionProposal)
      → AllOrderly start
      → find_proposal j start ≡ some p
      → Reach locked start w
      → IsNext p j w
  Reach-IsNext locked start j p h e Reach.here = record {
    row = p;
    is_row = e;
    follows = Follows-self p;
  }
  Reach-IsNext locked start j p h e (Reach.next {w} c r a) =
      let before = Reach-IsNext locked start j p h e r in
      let kept = perform-Kept locked c w a (Reach-AllOrderly locked start h r) in
      let after = Change-IsNext w (perform c w) j before.row kept.change before.is_row in
      record {
        row = after.row;
        is_row = after.is_row;
        follows = Follows-again p before.row after.row before.follows after.follows;
      }

  -- An approval whose write replays a payload with the fingerprint of the one proposed.
  pub record IsGenuine (payload : Payload) (id user : ℕ) (expected : ActionType)
      (now payment_id : ℕ) (w : World) (q : AgentActionProposal) (w' : World) : Type 0 where
    pub released : IsReleased payload_hash parse_uuid id user expected now payment_id w q w'
    pub same : payload_hash released.row.payload ≡ payload_hash payload

  some_inj : (p q : AgentActionProposal) → some p ≡ some q → p ≡ q
  some_inj p q h = cc

  untouched : (o : Option ℕ) (h actual : ℕ) → o ≡ some h → is_tampered o actual ≡ false → actual ≡ h
  untouched o h actual e t = tampered_no h actual (rw e at t)
    where
      tampered_no : (h actual : ℕ) → not (actual == h) ≡ false → actual ≡ h
      tampered_no h actual t = ground arith

  -- If a proposal was stored with the fingerprint of a payload, then after any admitted calls,
  -- changes of stored payloads by hand among them, an approval of it that returns has replayed a
  -- payload with the same fingerprint, and one that raises leaves the world as it was, or its
  -- write failed with a database error and only the claim is left.
  pub approve-IsGenuine :
      (locked : Bool) (start : World) {w : World} (id : ℕ) (p : AgentActionProposal)
      (payload : Payload) (user : ℕ) (expected : ActionType) (now payment_id : ℕ)
      → AllOrderly start
      → find_proposal id start ≡ some p
      → p.payload_hash ≡ some (payload_hash payload)
      → Reach locked start w
      → Leaves
          (IsGenuine payload id user expected now payment_id w)
          (IsRefused payload_hash parse_uuid id user expected now payment_id w)
          (approve payload_hash parse_uuid id user expected now payment_id w)
  approve-IsGenuine locked start {w} id p payload user expected now payment_id h e f r =
      let next = Reach-IsNext locked start id p h e r in
      let result = approve payload_hash parse_uuid id user expected now payment_id w in
      genuine next.row result.0 result.1 next.is_row (next.follows.fingerprint ∙ f) (
        approve-IsReleased payload_hash parse_uuid id user expected now payment_id w
          (Reach-AllOrderly locked start h r))
    where
      genuine :
          (row : AgentActionProposal) (x : Result AgentActionProposal) (w' : World)
          → find_proposal id w ≡ some row
          → row.payload_hash ≡ some (payload_hash payload)
          → Leaves
              (IsReleased payload_hash parse_uuid id user expected now payment_id w)
              (IsRefused payload_hash parse_uuid id user expected now payment_id w)
              (x, w')
          → Leaves
              (IsGenuine payload id user expected now payment_id w)
              (IsRefused payload_hash parse_uuid id user expected now payment_id w)
              (x, w')
      genuine row (err e) w' found print l = l
      genuine row (ok q) w' found print l =
          let same_row : l.row ≡ row = some_inj l.row row (sym l.reviewable.is_row ∙ found) in
          let stored = ap (λ (p : AgentActionProposal). p.payload_hash) same_row ∙ print in
          record {
            released = l;
            same =
                untouched l.row.payload_hash (payload_hash payload) (payload_hash l.row.payload)
                  stored l.intact;
          }
