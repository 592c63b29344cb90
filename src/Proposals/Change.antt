-- ===== src/Proposals/Change.antt =====
-- What one call may do to the table of proposals, and what follows for each row.
use finguard.Base.{
  ℕ, ◌==◌, ◌≡◌, refl, sym, ap, inl, inr, ◌∙◌, false, none, some, [], ◌∷◌, ◌++◌, if◌then◌else◌,
  Bool-cases, eq_of_test,
}
use finguard.Base.Table.{find_row, save_row, find_row-save_row, find_row-append, find_row-key}
use finguard.Proposals.World.{ProposalStatus, AgentActionProposal, World, find_proposal}
use finguard.Proposals.Decide.{is_open}
use finguard.Proposals.Lifecycle.{IsOrderly, AllOrderly}

-- The diagram: a waiting proposal is applied or rejected once, and that is final.
infix 40 ◌⟶◌
pub data ◌⟶◌ : ProposalStatus → ProposalStatus → Type 0 where
  stay : {s : ProposalStatus} → s ⟶ s
  apply : ProposalStatus.proposed ⟶ ProposalStatus.applied
  decline : ProposalStatus.proposed ⟶ ProposalStatus.rejected

pub ⟶-trans : {s t u : ProposalStatus} → s ⟶ t → t ⟶ u → s ⟶ u
⟶-trans stay q = q
⟶-trans apply stay = apply
⟶-trans decline stay = decline

⟶-final : {s t : ProposalStatus} → s ⟶ t → is_open s ≡ false → is_open t ≡ false
⟶-final stay h = h
⟶-final apply h = refl
⟶-final decline h = refl

-- What a later row keeps of an earlier one: the fingerprint, the action and the requester always,
-- and the decision once there is one.
pub record Follows (p q : AgentActionProposal) : Type 0 where
  pub fingerprint : q.payload_hash ≡ p.payload_hash
  pub action : q.action_type ≡ p.action_type
  pub requester : q.triggered_by ≡ p.triggered_by
  pub moves : p.status ⟶ q.status
  pub reviewer : is_open p.status ≡ false → q.reviewed_by ≡ p.reviewed_by
  pub made : is_open p.status ≡ false → q.applied_ref ≡ p.applied_ref

pub Follows-self : (p : AgentActionProposal) → Follows p p
Follows-self p = record {
  fingerprint = refl;
  action = refl;
  requester = refl;
  moves = stay;
  reviewer = λ h. refl;
  made = λ h. refl;
}

pub Follows-again : (p q r : AgentActionProposal) → Follows p q → Follows q r → Follows p r
Follows-again p q r f g = record {
  fingerprint = g.fingerprint ∙ f.fingerprint;
  action = g.action ∙ f.action;
  requester = g.requester ∙ f.requester;
  moves = ⟶-trans f.moves g.moves;
  reviewer = λ h. g.reviewer (⟶-final f.moves h) ∙ f.reviewer h;
  made = λ h. g.made (⟶-final f.moves h) ∙ f.made h;
}

pub data Change (w w' : World) : Type 0 where
  same : w'.proposals ≡ w.proposals → Change w w'
  update :
      (k : ℕ) (old q : AgentActionProposal)
      → find_proposal k w ≡ some old
      → q.id ≡ old.id
      → w'.proposals ≡ save_row (λ (p : AgentActionProposal). p.id) q w.proposals
      → Follows old q
      → IsOrderly q
      → Change w w'
  insert :
      (q : AgentActionProposal)
      → find_proposal q.id w ≡ none
      → w'.proposals ≡ w.proposals ++ q ∷ []
      → IsOrderly q
      → Change w w'

-- The row of an id after the call.
pub record IsNext (p : AgentActionProposal) (j : ℕ) (w' : World) : Type 0 where
  pub row : AgentActionProposal
  pub is_row : find_proposal j w' ≡ some row
  pub follows : Follows p row

abbrev key : AgentActionProposal → ℕ
key p = p.id

some_inj : (p q : AgentActionProposal) → some p ≡ some q → p ≡ q
some_inj p q h = cc

clash {ℓ} : {A : Type ℓ} (p : AgentActionProposal) → none ≡ some p → A
clash p h = cc

-- Every row that is there stays, and follows the one before.
pub Change-IsNext :
    (w w' : World) (j : ℕ) (p : AgentActionProposal)
    → Change w w'
    → find_proposal j w ≡ some p
    → IsNext p j w'
Change-IsNext w w' j p (Change.same e) h = record {
  row = p;
  is_row = ap (find_row key j) e ∙ h;
  follows = Follows-self p;
}
Change-IsNext w w' j p (Change.update k old q e i s f o) h =
    let named = find_row-key key k w.proposals old e in
    let there : find_proposal j w' ≡ (if k == j then some q else find_proposal j w) =
      ap (find_row key j) s ∙ find_row-save_row key k j q old w.proposals (i ∙ named) e in
    elim (Bool-cases (k == j)) [
      | inl hit ↦
          let found : old ≡ p = some_inj old p (sym e ∙ rw (eq_of_test k j hit) h) in
          record { row = q; is_row = rw hit at there; follows = rw (← found) f }
      | inr miss ↦ record { row = p; is_row = (rw miss at there) ∙ h; follows = Follows-self p }
    ]
Change-IsNext w w' j p (Change.insert q e s o) h =
    let there : find_proposal j w' ≡ (if q.id == j then some q else find_proposal j w) =
      ap (find_row key j) s ∙ find_row-append key j q w.proposals e in
    elim (Bool-cases (q.id == j)) [
      | inl hit ↦ clash p (sym e ∙ rw (eq_of_test q.id j hit) h)
      | inr miss ↦ record { row = p; is_row = (rw miss at there) ∙ h; follows = Follows-self p }
    ]

-- And every row stays orderly.
pub Change-AllOrderly : (w w' : World) → Change w w' → AllOrderly w → AllOrderly w'
Change-AllOrderly w w' (Change.same e) h = record {
  rows = λ j p f. h.rows j p (sym (ap (find_row key j) e) ∙ f);
}
Change-AllOrderly w w' (Change.update k old q e i s f o) h = record {
  rows = λ j p g.
      let named = find_row-key key k w.proposals old e in
      let there : (if k == j then some q else find_proposal j w) ≡ some p =
        sym (ap (find_row key j) s ∙ find_row-save_row key k j q old w.proposals (i ∙ named) e)
        ∙ g in
      elim (Bool-cases (k == j)) [
        | inl hit ↦ let found : q ≡ p = some_inj q p (rw hit at there) in rw (← found) o
        | inr miss ↦ h.rows j p (rw miss at there)
      ];
}
Change-AllOrderly w w' (Change.insert q e s o) h = record {
  rows = λ j p g.
      let there : (if q.id == j then some q else find_proposal j w) ≡ some p =
        sym (ap (find_row key j) s ∙ find_row-append key j q w.proposals e) ∙ g in
      elim (Bool-cases (q.id == j)) [
        | inl hit ↦ let found : q ≡ p = some_inj q p (rw hit at there) in rw (← found) o
        | inr miss ↦ h.rows j p (rw miss at there)
      ];
}
