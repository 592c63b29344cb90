-- ===== src/Reconciliation/Tests.antt =====
-- The properties of the reconciliation and of the approvals, each at a small run.
use finguard.Base.{
  Bool, true, false, Bool-cases, inl, inr, ◌==◌, ℕ, ◌+◌, ◌≡◌, refl, true, false, Option, none, some,
  List, [], ◌∷◌, String, arith,
}
use finguard.Base.Int.{ℤ, negsuc, pos, ◌-ℤ◌, ◌+ℤ◌}
use finguard.Base.Table.{find_row, select}
use finguard.Core.Errors.{AppError, Result, ok, err}
use finguard.Finance.Types.{InvoiceStatus}
use finguard.Finance.Rows.{Invoice, MpesaTransaction}
use finguard.Finance.Types.{VaultType}
use finguard.Finance.Db.{Db}
use finguard.Finance.Invoices.Preserve.Commands.{Command, execute, execute-Inv}
use finguard.Finance.Invoices.Tests.{issued_db, issued_db-Inv}
use finguard.Inventory.Rows.{Warehouse, last_sequence, max_sequence}
use finguard.Inventory.Stock.{IsConsistent}
use finguard.Proposals.World.{
  ProposalStatus, reconciliation_match, Payload, AgentActionProposal, World, find_proposal,
}
use finguard.Proposals.Decide.{approve}
use finguard.Proposals.Lifecycle.{AllOrderly, Leaves, IsReleased, IsRefused, approve-IsReleased}
use finguard.Proposals.Change.{IsNext}
use finguard.Proposals.Runs.{
  Call, perform, Reach, Books, Reach-IsNext, IsGenuine, approve-IsGenuine,
}
use finguard.Reconciliation.Match.{
  Transaction, MatchType, MatchStatus, mpesa, bank, ReconciliationMatch, default_tuning, is_exact,
}
use finguard.Reconciliation.Exact.{pass1_exact, exact_match}
use finguard.Reconciliation.Exact.Scan.{pass1_nested, pass1_exact-eq-nested}
use finguard.Reconciliation.Exact.Sound.{IsMatching, pass1_exact-IsMatching}
use finguard.Reconciliation.Semantic.{
  FuzzyCandidate, ReconciliationCandidate, pass2_semantic, score_candidates, build_fuzzy_candidates,
}
use finguard.Reconciliation.Semantic.Confirm.{IsReview, answer_of, pass2_semantic-IsReview}
use finguard.Reconciliation.Persist.{Host}
use finguard.Reconciliation.Batch.Fetch.{
  fetch_mpesa, fetch_bank, fetch_invoices, run_reconciliation, run_bank_reconciliation,
}
use finguard.Reconciliation.Batch.Refine.{
  IsRun, run_reconciliation-Script, run_reconciliation-Books,
}

abbrev bill : Invoice
bill = record {
  id = 1;
  customer_id = 7;
  invoice_number = "INV-1042";
  status = InvoiceStatus.sent;
  subtotal = pos 11600;
  tax = pos 0;
  total = pos 11600;
  amount_paid = pos 0;
  amount_credited = pos 0;
  balance_due = pos 11600;
  currency = "KES";
  due_date = some 86400;
  paid_at = none;
  notes = none;
  created_at = 0;
}

-- Paid a shilling short, a day late, with the reference in small letters.
abbrev paid_short : Transaction
paid_short = record {
  id = 5;
  amount = pos 11500;
  bill_ref = some " inv-1042 ";
  created_at = 180000;
}

abbrev stranger : Transaction
stranger = record { id = 6; amount = pos 700; bill_ref = some "rent"; created_at = 180000 }

exact_lem : pass1_exact default_tuning (stranger ∷ paid_short ∷ []) (bill ∷ []) ≡ record {
  matches = exact_match paid_short bill ∷ [];
  matched_txn_ids = 5 ∷ [];
  matched_inv_ids = 1 ∷ [];
}
unfolding pass1_exact is_exact ◌-ℤ◌ ◌+ℤ◌
exact_lem = refl

pass1_exact-eq-nested_example :
    pass1_exact default_tuning (stranger ∷ paid_short ∷ []) (bill ∷ [])
    ≡ pass1_nested default_tuning (stranger ∷ paid_short ∷ []) (bill ∷ [])
pass1_exact-eq-nested_example =
    pass1_exact-eq-nested default_tuning (stranger ∷ paid_short ∷ []) (bill ∷ [])

pass1_exact-IsMatching_example :
    IsMatching default_tuning
      (stranger ∷ paid_short ∷ [])
      (bill ∷ [])
      (pass1_exact default_tuning (stranger ∷ paid_short ∷ []) (bill ∷ []))
pass1_exact-IsMatching_example =
    pass1_exact-IsMatching default_tuning (stranger ∷ paid_short ∷ []) (bill ∷ [])

-- Texts are as alike as they are long.
abbrev alike : String → String → ℕ
alike a b = 7000

-- A model that is sure of one pair, and repeats it.
abbrev answer : List FuzzyCandidate → Option (List ReconciliationCandidate)
answer cs = some (
    record { transaction_id = 6; invoice_id = 1; match_score = 80 }
    ∷ record { transaction_id = 6; invoice_id = 1; match_score = 95 }
    ∷ record { transaction_id = 9; invoice_id = 1; match_score = 99 }
    ∷ [])

pass2_semantic-IsReview_example :
    IsReview default_tuning
      (stranger ∷ [])
      (bill ∷ [])
      (answer_of (
        score_candidates answer default_tuning
          (build_fuzzy_candidates alike default_tuning (stranger ∷ []) (bill ∷ []) [] [])))
      (pass2_semantic alike answer default_tuning (stranger ∷ []) (bill ∷ []) [] [])
pass2_semantic-IsReview_example =
    pass2_semantic-IsReview default_tuning (stranger ∷ []) (bill ∷ []) alike answer [] []

confirmed_lem :
    pass2_semantic alike answer default_tuning (stranger ∷ []) (bill ∷ []) [] []
    ≡ record {
      transaction_id = 6;
      invoice_id = 1;
      match_type = MatchType.fuzzy;
      match_score = 95;
      amount = pos 700;
      new_invoice_status = MatchStatus.partially_paid;
      source = mpesa;
    }
      ∷ []
unfolding pass2_semantic ◌-ℤ◌
confirmed_lem = refl

abbrev cents : ℤ → ℕ
cents (pos n) = n
cents (negsuc n) = 0

-- A fingerprint that tells amounts apart.
abbrev fingerprint : Payload → ℕ
fingerprint (Payload.stock args) = 0
fingerprint (Payload.reconciliation m occurred_at) = cents m.amount

abbrev host : Host
host = record {
  ratio = alike;
  score = answer;
  match_vc = λ m. true;
  proposal_vc = λ body id. true;
  payload_hash = fingerprint;
}

abbrev no_uuid : String → Option ℕ
no_uuid s = none

abbrev arrived : MpesaTransaction
arrived = record {
  id = 5;
  trans_id = "SFK1";
  amount = pos 11500;
  phone = "254700000001";
  bill_ref = some "inv-1042";
  vault = VaultType.mpesa;
  is_reconciled = false;
  created_at = 180000;
}

abbrev stocked : Warehouse
stocked = record { products = []; levels = []; movements = [] }

stocked-IsConsistent : IsConsistent stocked
unfolding find_row select last_sequence max_sequence
stocked-IsConsistent = λ i. record { solvent = omega arith; ledger = (refl, refl) }

-- The books with one issued invoice that was sent, and a payment that arrived.
abbrev sent_db : Db
sent_db = execute (Command.send 1) issued_db

abbrev office : World
office = record {
  db = record sent_db { mpesa = arrived ∷ [] };
  warehouse = stocked;
  proposals = [];
}

office-Books : Books true office
unfolding find_row
office-Books = record {
  orderly = record { rows = λ i p h. cc };
  finance = record {
    tracked = (execute-Inv true (Command.send 1) issued_db tt issued_db-Inv).tracked;
  };
  stock = stocked-IsConsistent;
}

above : ℕ → ℕ
above n = n + 30

above_inj : (a b : ℕ) → above a ≡ above b → a ≡ b
unfolding above
above_inj a b h = omega (arith, h)

above_new : (k : ℕ) → find_proposal (above k) office ≡ none
unfolding find_row
above_new k = refl

run_reconciliation-Script_example :
    IsRun host no_uuid true default_tuning mpesa 200000 above
      (fetch_mpesa default_tuning office.db)
      (fetch_invoices default_tuning office.db)
      office
      (run_reconciliation host default_tuning 200000 above above office)
    × IsRun host no_uuid true default_tuning bank 200000 above
        (fetch_bank default_tuning office.db)
        (fetch_invoices default_tuning office.db)
        office
        (run_bank_reconciliation host default_tuning 200000 above above office)
run_reconciliation-Script_example =
    run_reconciliation-Script host no_uuid true default_tuning 200000 above above office above_inj
      above_new

run_reconciliation-Books_example :
    Books true (run_reconciliation host default_tuning 200000 above above office).1
    × Books true (run_bank_reconciliation host default_tuning 200000 above above office).1
run_reconciliation-Books_example =
    run_reconciliation-Books host no_uuid true default_tuning 200000 above above office above_inj
      above_new office-Books

abbrev guess : ReconciliationMatch
guess = record {
  transaction_id = 6;
  invoice_id = 1;
  match_type = MatchType.fuzzy;
  match_score = 95;
  amount = pos 700;
  new_invoice_status = MatchStatus.partially_paid;
  source = mpesa;
}

-- A guess of the model that waits for its review.
abbrev waiting : AgentActionProposal
waiting = record {
  id = 3;
  agent_label = "c_reconciler";
  action_type = reconciliation_match;
  payload = Payload.reconciliation guess 180000;
  payload_hash = some 700;
  status = ProposalStatus.proposed;
  rationale = none;
  triggered_by = none;
  reviewed_by = none;
  reviewed_at = none;
  applied_ref = none;
}

-- The payment that the guess is about.
abbrev queue : World
queue = record office {
  db = record sent_db {
    mpesa = record arrived { id = 6; trans_id = "SFK2"; amount = pos 700 } ∷ arrived ∷ [];
  };
  proposals = waiting ∷ [];
}

waiting_found : find_proposal 3 queue ≡ some waiting
unfolding find_row
waiting_found = refl

queue-AllOrderly : AllOrderly queue
unfolding find_row
queue-AllOrderly = record {
  rows = λ i p h. elim (Bool-cases (3 == i)) [
    | inl e ↦ let same : waiting ≡ p = cc (rw e at h) in rw (← same) (refl, refl, refl)
    | inr e ↦ let no_row : none ≡ some p = rw e at h in cc
  ];
}

-- Someone approves it.
abbrev approved : Result AgentActionProposal × World
approved = approve host.payload_hash no_uuid 3 9 reconciliation_match 210000 70 queue

approve-IsReleased_example :
    Leaves
      (IsReleased host.payload_hash no_uuid 3 9 reconciliation_match 210000 70 queue)
      (IsRefused host.payload_hash no_uuid 3 9 reconciliation_match 210000 70 queue)
      approved
approve-IsReleased_example =
    approve-IsReleased host.payload_hash no_uuid 3 9 reconciliation_match 210000 70 queue
      queue-AllOrderly

-- It is changed by hand, and then turned down by someone.
abbrev turned_down : World
turned_down =
    perform host.payload_hash no_uuid host.proposal_vc
      (Call.decline_one 3 9 reconciliation_match 220000)
      (perform host.payload_hash no_uuid host.proposal_vc
        (Call.alter 3 (Payload.reconciliation (record guess { amount = pos 99999 }) 180000)) queue)

calls : Reach host.payload_hash no_uuid host.proposal_vc true queue turned_down
calls =
    Reach.next (Call.decline_one 3 9 reconciliation_match 220000)
      (Reach.next
        (Call.alter 3 (Payload.reconciliation (record guess { amount = pos 99999 }) 180000))
        Reach.here tt)
      tt

Reach-IsNext_example : IsNext waiting 3 turned_down
Reach-IsNext_example =
    Reach-IsNext host.payload_hash no_uuid host.proposal_vc true queue 3 waiting queue-AllOrderly
      waiting_found calls

-- It is changed by hand, and changed back before someone approves it.
abbrev changed_back : World
changed_back =
    perform host.payload_hash no_uuid host.proposal_vc
      (Call.alter 3 (Payload.reconciliation guess 180000))
      (perform host.payload_hash no_uuid host.proposal_vc
        (Call.alter 3 (Payload.reconciliation (record guess { amount = pos 99999 }) 180000)) queue)

changes : Reach host.payload_hash no_uuid host.proposal_vc true queue changed_back
changes =
    Reach.next (Call.alter 3 (Payload.reconciliation guess 180000))
      (Reach.next
        (Call.alter 3 (Payload.reconciliation (record guess { amount = pos 99999 }) 180000))
        Reach.here tt)
      tt

approve-IsGenuine_example :
    Leaves
      (IsGenuine host.payload_hash no_uuid host.proposal_vc
        (Payload.reconciliation guess 180000)
        3
        9
        reconciliation_match
        230000
        71
        changed_back)
      (IsRefused host.payload_hash no_uuid 3 9 reconciliation_match 230000 71 changed_back)
      (approve host.payload_hash no_uuid 3 9 reconciliation_match 230000 71 changed_back)
approve-IsGenuine_example =
    approve-IsGenuine host.payload_hash no_uuid host.proposal_vc true queue 3 waiting
      (Payload.reconciliation guess 180000) 9 reconciliation_match 230000 71 queue-AllOrderly
      waiting_found refl changes

abbrev returned : Result AgentActionProposal → Bool
returned (ok p) = true
returned (err e) = false

-- The approval returns, and pays the invoice.
approved_lem : returned approved.0 ≡ true
unfolding approve find_row finguard.Proposals.Decide.apply_action
    finguard.Reconciliation.Settle.apply_confirmed_match
    finguard.Finance.Invoices.Settle.apply_reconciled_payment execute
    finguard.Finance.Invoices.Issue.send_invoice finguard.Finance.Invoices.Issue.create_invoice
    finguard.Finance.Invoices.Issue.has_number finguard.Base.Table.save_row finguard.Base.Int.min_ℤ
    ◌+ℤ◌ finguard.Finance.Invoices.Settle.settle_reconciled
    finguard.Finance.Invoices.Settle.post_payment
    finguard.Finance.Invoices.Projection.project_invoice
    finguard.Finance.Invoices.Projection.derive_state finguard.Finance.Db.latest_snapshot select
approved_lem = refl

-- The transaction paid an invoice before: the approval gets stuck, and its proposal stays applied
-- although nothing was written.
abbrev backed : World
backed = record queue {
  db = record queue.db {
    payments =
        record {
          id = 60;
          invoice_id = 2;
          amount = pos 700;
          vault = VaultType.mpesa;
          reference_note = none;
          payment_date = 190000;
          recorded_by = none;
          mpesa_trans_id = some 6;
          bank_line_id = none;
        }
        ∷ [];
  };
}

stuck_lem : approve fingerprint no_uuid 3 9 reconciliation_match 220000 71 backed ≡ (
  err AppError.database_error,
  record backed {
    proposals =
        record waiting {
          status = ProposalStatus.applied;
          reviewed_by = some 9;
          reviewed_at = some 220000;
        }
        ∷ [];
  },
)
unfolding approve find_row finguard.Proposals.Decide.apply_action
    finguard.Reconciliation.Settle.apply_confirmed_match
    finguard.Finance.Invoices.Settle.apply_reconciled_payment execute
    finguard.Finance.Invoices.Issue.send_invoice finguard.Finance.Invoices.Issue.create_invoice
    finguard.Finance.Invoices.Issue.has_number finguard.Base.Table.save_row finguard.Base.Int.min_ℤ
    ◌+ℤ◌ finguard.Finance.Invoices.Settle.settle_reconciled
    finguard.Finance.Invoices.Settle.violates_constraints
stuck_lem = refl
