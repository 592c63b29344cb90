-- ===== src/Reconciliation/Semantic/Confirm.antt =====
-- Whatever the model answers, what is confirmed keeps to the rules.
use mathlib.Core.List.{Mem}
use mathlib.Core.Path.{subst}
use finguard.Base.{
  ℕ, ◌≤◌, ◌≡◌, refl, Bool, false, ◌||◌, Option, none, some, List, [], ◌∷◌, String, ltb, if_cases,
  All, All-append, arith, if_elim, leb,
}
use finguard.Base.Table.{last_row-Mem, All-Mem}
use finguard.Finance.Rows.{Invoice}
use finguard.Reconciliation.Match.{Transaction, ReconcilerTuning, ReconciliationMatch}
use finguard.Reconciliation.Exact.{mem_id}
use finguard.Reconciliation.Exact.Count.{
  count_inv, count_txn, count_inv-append, count_txn-append, once_step, taken_step,
}
use finguard.Reconciliation.Semantic.{
  FuzzyCandidate, ReconciliationCandidate, txn_map, inv_map, Review, scored_match, note_scored,
  review_step, review_all, confirm, score_candidates, build_fuzzy_candidates, pass2_semantic,
  sort_scored, insert_scored,
}

-- The rows that the model answers; none if it was not asked, or failed.
abbrev pub answer_of : Option (List ReconciliationCandidate) → List ReconciliationCandidate
answer_of none = []
answer_of (some scored) = scored

insert_scored-All :
    (P : ReconciliationCandidate → Type 0) (c : ReconciliationCandidate)
    (cs : List ReconciliationCandidate)
    → P c
    → All P cs
    → All P (insert_scored c cs)
unfolding insert_scored
insert_scored-All P c [] p h = (p, tt)
insert_scored-All P c (x ∷ xs) p h =
    if_elim (All P) (leb x.match_score c.match_score) (c ∷ x ∷ xs) (x ∷ insert_scored c xs) (p, h)
      (h.0, insert_scored-All P c xs p h.1)

sort_scored-All :
    (P : ReconciliationCandidate → Type 0) (cs : List ReconciliationCandidate)
    → All P cs
    → All P (sort_scored cs)
unfolding sort_scored
sort_scored-All P [] h = tt
sort_scored-All P (c ∷ cs) h = insert_scored-All P c (sort_scored cs) h.0 (sort_scored-All P cs h.1)

module _ (rc : ReconcilerTuning) (transactions : List Transaction) (invoices : List Invoice)
    (answer : List ReconciliationCandidate) where
  -- A match is that of a row of the answer with a score at the threshold or above, for a
  -- transaction and an invoice of the batch.
  pub record IsConfirmed (m : ReconciliationMatch) : Type 0 where
    pub cand : ReconciliationCandidate
    pub answered : Mem cand answer
    pub txn : Transaction
    pub inv : Invoice
    pub from_txns : Mem txn transactions
    pub from_invoices : Mem inv invoices
    pub names_txn : txn.id ≡ cand.transaction_id
    pub names_inv : inv.id ≡ cand.invoice_id
    pub sure : rc.semantic_threshold ≤ cand.match_score
    pub is_match : m ≡ scored_match rc cand txn inv

  -- The loop's invariant.
  record Inv (r : Review) : Type 0 where
    confirmed : All IsConfirmed r.matches
    once_inv : (i : ℕ) → count_inv i r.matches ≤ 1
    once_txn : (i : ℕ) → count_txn i r.matches ≤ 1
    seen_inv : (i : ℕ) → mem_id i r.seen_inv ≡ ltb 0 (count_inv i r.matches)
    seen_txn : (i : ℕ) → mem_id i r.seen_txn ≡ ltb 0 (count_txn i r.matches)

  note_scored-Inv :
      (cand : ReconciliationCandidate) (o : Option Transaction) (p : Option Invoice) (r : Review)
      → txn_map transactions cand.transaction_id ≡ o
      → inv_map invoices cand.invoice_id ≡ p
      → mem_id cand.transaction_id r.seen_txn ≡ false
      → mem_id cand.invoice_id r.seen_inv ≡ false
      → rc.semantic_threshold ≤ cand.match_score
      → Mem cand answer
      → Inv r
      → Inv (note_scored rc cand o p r)
  unfolding note_scored mem_id
  note_scored-Inv cand none p r eo ep ft fi s a h = h
  note_scored-Inv cand (some txn) none r eo ep ft fi s a h = h
  note_scored-Inv cand (some txn) (some inv) r eo ep ft fi s a h =
      let (txn_in, txn_id) =
        last_row-Mem (λ (t : Transaction). t.id) cand.transaction_id transactions txn eo in
      let (inv_in, inv_id) = last_row-Mem (λ (i : Invoice). i.id) cand.invoice_id invoices inv ep in
      let m = scored_match rc cand txn inv in
      record {
        confirmed = All-append IsConfirmed r.matches (m ∷ []) h.confirmed (
          record {
            cand = cand;
            answered = a;
            txn = txn;
            inv = inv;
            from_txns = txn_in;
            from_invoices = inv_in;
            names_txn = txn_id;
            names_inv = inv_id;
            sure = s;
            is_match = refl;
          },
          tt,
        );
        once_inv = λ i. rw (count_inv-append i r.matches (m ∷ [])) (
            once_step cand.invoice_id i (count_inv i r.matches) (mem_id i r.seen_inv)
              (λ e. subst (λ (j : ℕ). mem_id j r.seen_inv ≡ false) e fi) (h.seen_inv i)
              (h.once_inv i));
        once_txn = λ i. rw (count_txn-append i r.matches (m ∷ [])) (
            once_step cand.transaction_id i (count_txn i r.matches) (mem_id i r.seen_txn)
              (λ e. subst (λ (j : ℕ). mem_id j r.seen_txn ≡ false) e ft) (h.seen_txn i)
              (h.once_txn i));
        seen_inv = λ i. rw (count_inv-append i r.matches (m ∷ [])) (
            taken_step cand.invoice_id i (count_inv i r.matches) (mem_id i r.seen_inv)
              (h.seen_inv i));
        seen_txn = λ i. rw (count_txn-append i r.matches (m ∷ [])) (
            taken_step cand.transaction_id i (count_txn i r.matches) (mem_id i r.seen_txn)
              (h.seen_txn i));
      }

  neither : (a b : Bool) → (a || b) ≡ false → (a ≡ false) × (b ≡ false)
  neither a b h = ground arith

  review_step-Inv :
      (cand : ReconciliationCandidate) (r : Review)
      → Mem cand answer
      → Inv r
      → Inv (review_step rc transactions invoices cand r)
  unfolding review_step
  review_step-Inv cand r a h =
      if_cases Inv (mem_id cand.transaction_id r.seen_txn || mem_id cand.invoice_id r.seen_inv) _ _
        (λ seen. h)
        (λ fresh.
          let (ft, fi) =
            neither (mem_id cand.transaction_id r.seen_txn) (mem_id cand.invoice_id r.seen_inv)
              fresh in
          if_cases Inv (ltb cand.match_score rc.semantic_threshold) _ _ (λ low. h)
            (λ high.
              note_scored-Inv cand (txn_map transactions cand.transaction_id)
                (inv_map invoices cand.invoice_id) r refl refl ft fi (ground (arith, high)) a h))

  review_all-Inv :
      (cs : List ReconciliationCandidate) (r : Review)
      → All (λ (c : ReconciliationCandidate). Mem c answer) cs
      → Inv r
      → Inv (review_all rc transactions invoices cs r)
  unfolding review_all
  review_all-Inv [] r a h = h
  review_all-Inv (c ∷ cs) r a h =
      review_all-Inv cs (review_step rc transactions invoices c r) a.1 (review_step-Inv c r a.0 h)

  -- What is promised of the confirmed matches.
  pub record IsReview (matches : List ReconciliationMatch) : Type 0 where
    pub confirmed : All IsConfirmed matches
    pub once_inv : (i : ℕ) → count_inv i matches ≤ 1
    pub once_txn : (i : ℕ) → count_txn i matches ≤ 1

  no_matches-IsReview : IsReview []
  no_matches-IsReview = record {
    confirmed = tt;
    once_inv = λ i. omega arith;
    once_txn = λ i. omega arith;
  }

  review_all-IsReview :
      IsReview
        (review_all rc transactions invoices
          (sort_scored answer)
          (record { matches = []; seen_txn = []; seen_inv = [] })).matches
  unfolding mem_id
  review_all-IsReview =
      let h =
        review_all-Inv (sort_scored answer) (record { matches = []; seen_txn = []; seen_inv = [] })
          (sort_scored-All (λ (c : ReconciliationCandidate). Mem c answer) answer (All-Mem answer))
          (record {
            confirmed = tt;
            once_inv = λ i. omega arith;
            once_txn = λ i. omega arith;
            seen_inv = λ i. refl;
            seen_txn = λ i. refl;
          }) in
      record { confirmed = h.confirmed; once_inv = h.once_inv; once_txn = h.once_txn }

module _ (rc : ReconcilerTuning) (transactions : List Transaction) (invoices : List Invoice) where
  confirm-IsReview :
      (answer : Option (List ReconciliationCandidate))
      → IsReview rc transactions invoices
          (answer_of answer)
          (confirm rc transactions invoices answer)
  unfolding confirm
  confirm-IsReview none = no_matches-IsReview rc transactions invoices []
  confirm-IsReview (some scored) = review_all-IsReview rc transactions invoices scored

  -- Whatever the model answers, each match of the second pass comes from a row of that answer
  -- with a score at the threshold or above, and takes its data from this row and from the
  -- transaction and the invoice of the batch that the row names, and no transaction and no
  -- invoice has two.
  pub pass2_semantic-IsReview :
      (ratio : String → String → ℕ)
      (score : List FuzzyCandidate → Option (List ReconciliationCandidate))
      (matched_txn_ids matched_inv_ids : List ℕ)
      → IsReview rc transactions invoices
          (answer_of (
            score_candidates score rc (
              build_fuzzy_candidates ratio rc transactions invoices matched_txn_ids
                matched_inv_ids)))
          (pass2_semantic ratio score rc transactions invoices matched_txn_ids matched_inv_ids)
  unfolding pass2_semantic
  pass2_semantic-IsReview ratio score matched_txn_ids matched_inv_ids = confirm-IsReview (
      score_candidates score rc
        (build_fuzzy_candidates ratio rc transactions invoices matched_txn_ids matched_inv_ids))
