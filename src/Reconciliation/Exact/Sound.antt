-- ===== src/Reconciliation/Exact/Sound.antt =====
-- What the exact pass pairs, and what it leaves.
use mathlib.Core.Path.{subst}
use mathlib.Core.List.{Mem, mem-cons_self, mem-cons_of_mem}
use finguard.Base.{
  weight, ℕ, ◌+◌, ◌≤◌, ◌≡◌, ◌⊎◌, refl, sym, inl, inr, ◌∙◌, Bool, true, false, not, ◌&&◌, ◌==◌,
  Option, none, some, List, [], ◌∷◌, ltb, Bool-cases, Option-cases, arith, All, All-append, All-map,
}
use finguard.Base.Table.{All-Mem}
use finguard.Finance.Rows.{Invoice}
use finguard.Reconciliation.Match.{Transaction, ReconcilerTuning, ReconciliationMatch, is_exact}
use finguard.Reconciliation.Exact.{Pass, mem_id, note_match, exact_match, no_matches, pass1_exact}
use finguard.Reconciliation.Exact.Scan.{scan, scan_from, pass1_nested, pass1_exact-eq-nested}
use finguard.Reconciliation.Exact.Count.{
  count_inv, count_inv-append, count_txn, count_txn-append, occurrences, once_step, taken_step,
  weight_self,
}

module _ (rc : ReconcilerTuning) where
  -- What the inner loop finds is an invoice of the list that is free, and fits.
  record IsFound (txn : Transaction) (taken : List ℕ) (invs : List Invoice) (inv : Invoice)
      : Type 0 where
    is_in : Mem inv invs
    is_free : mem_id inv.id taken ≡ false
    is_fit : is_exact rc txn inv ≡ true

  split_test : (a b : Bool) → (not a && b) ≡ true → (a ≡ false) × (b ≡ true)
  split_test a b h = ground arith

  scan-IsFound :
      (txn : Transaction) (taken : List ℕ) (invs : List Invoice) (inv : Invoice)
      → scan rc txn taken invs ≡ some inv
      → IsFound txn taken invs inv
  unfolding scan
  scan-IsFound txn taken [] inv h = cc
  scan-IsFound txn taken (x ∷ xs) inv h =
      elim (Bool-cases (not (mem_id x.id taken) && is_exact rc txn x)) [
        | inl good ↦
            let same : x ≡ inv = cc (rw good at h) in
            let (free, fit) = split_test (mem_id x.id taken) (is_exact rc txn x) good in
            rw (← same) (record { is_in = mem-cons_self; is_free = free; is_fit = fit })
        | inr bad ↦
            let f = scan-IsFound txn taken xs inv (rw bad at h) in
            record { is_in = mem-cons_of_mem x f.is_in; is_free = f.is_free; is_fit = f.is_fit }
      ]

  -- If it finds none, then all that fit are taken.
  scan-none :
      (txn : Transaction) (taken : List ℕ) (invs : List Invoice)
      → scan rc txn taken invs ≡ none
      → All (λ (inv : Invoice). is_exact rc txn inv ≡ true → mem_id inv.id taken ≡ true) invs
  unfolding scan
  scan-none txn taken [] h = tt
  scan-none txn taken (x ∷ xs) h =
      elim (Bool-cases (not (mem_id x.id taken) && is_exact rc txn x)) [
        | inl good ↦ cc (rw good at h)
        | inr bad ↦ (
          λ fit. taken_of (mem_id x.id taken) (is_exact rc txn x) bad fit,
          scan-none txn taken xs (rw bad at h),
        )
      ]
    where
      taken_of : (a b : Bool) → (not a && b) ≡ false → b ≡ true → a ≡ true
      taken_of a b h k = ground arith

module _ (rc : ReconcilerTuning) (all : List Transaction) (invoices : List Invoice) where
  -- A match pairs a transaction with an invoice that fits it, and takes the data of both.
  pub record IsExactMatch (m : ReconciliationMatch) : Type 0 where
    pub txn : Transaction
    pub inv : Invoice
    pub from_txns : Mem txn all
    pub from_invoices : Mem inv invoices
    pub fit : is_exact rc txn inv ≡ true
    pub is_match : m ≡ exact_match txn inv

  -- A transaction has a match, or every invoice that fits it went to a match.
  pub IsServed : Pass → Transaction → Type 0
  IsServed pass txn =
      (1 ≤ count_txn txn.id pass.matches)
      ⊎ All (λ (inv : Invoice). is_exact rc txn inv ≡ true → 1 ≤ count_inv inv.id pass.matches)
          invoices

  -- The loop's invariant.
  record Inv (pass : Pass) : Type 0 where
    exact : All IsExactMatch pass.matches
    once : (i : ℕ) → count_inv i pass.matches ≤ 1
    taken : (i : ℕ) → mem_id i pass.matched_inv_ids ≡ ltb 0 (count_inv i pass.matches)

  -- What a pass has, a later one has.
  record Grows (p q : Pass) : Type 0 where
    inv : (i : ℕ) → count_inv i p.matches ≤ count_inv i q.matches
    txn : (i : ℕ) → count_txn i p.matches ≤ count_txn i q.matches

  Grows-self : (p : Pass) → Grows p p
  Grows-self p = record { inv = λ i. omega arith; txn = λ i. omega arith }

  Grows-again : (p q r : Pass) → Grows p q → Grows q r → Grows p r
  Grows-again p q r f g = record {
    inv = λ i. omega (arith, f.inv i, g.inv i);
    txn = λ i. omega (arith, f.txn i, g.txn i);
  }

  note_match-Grows :
      (txn : Transaction) (o : Option Invoice) (p : Pass) → Grows p (note_match txn o p)
  unfolding note_match
  note_match-Grows txn none p = Grows-self p
  note_match-Grows txn (some inv) p = record {
    inv = λ i. omega (arith, count_inv-append i p.matches (exact_match txn inv ∷ []));
    txn = λ i. omega (arith, count_txn-append i p.matches (exact_match txn inv ∷ []));
  }

  scan_from-Grows : (txns : List Transaction) (p : Pass) → Grows p (scan_from rc txns invoices p)
  unfolding scan_from
  scan_from-Grows [] p = Grows-self p
  scan_from-Grows (t ∷ ts) p =
      let next = note_match t (scan rc t p.matched_inv_ids invoices) p in
      Grows-again p next (scan_from rc ts invoices next)
        (note_match-Grows t (scan rc t p.matched_inv_ids invoices) p) (scan_from-Grows ts next)

  note_match-Inv :
      (txn : Transaction) (o : Option Invoice) (p : Pass)
      → Mem txn all
      → ((inv : Invoice) → o ≡ some inv → IsFound rc txn p.matched_inv_ids invoices inv)
      → Inv p
      → Inv (note_match txn o p)
  unfolding note_match mem_id
  note_match-Inv txn none p m f h = h
  note_match-Inv txn (some inv) p m f h =
      let found = f inv refl in
      record {
        exact = All-append IsExactMatch p.matches (exact_match txn inv ∷ []) h.exact (
          record {
            txn = txn;
            inv = inv;
            from_txns = m;
            from_invoices = found.is_in;
            fit = found.is_fit;
            is_match = refl;
          },
          tt,
        );
        once = λ i. rw (count_inv-append i p.matches (exact_match txn inv ∷ [])) (
            once_step inv.id i (count_inv i p.matches) (mem_id i p.matched_inv_ids)
              (λ e. subst (λ (j : ℕ). mem_id j p.matched_inv_ids ≡ false) e found.is_free)
              (h.taken i) (h.once i));
        taken = λ i.
            rw (count_inv-append i p.matches (exact_match txn inv ∷ [])) (
              taken_step inv.id i (count_inv i p.matches) (mem_id i p.matched_inv_ids) (h.taken i));
      }

  scan_from-Inv :
      (txns : List Transaction) (p : Pass)
      → All (λ (t : Transaction). Mem t all) txns
      → Inv p
      → Inv (scan_from rc txns invoices p)
  unfolding scan_from
  scan_from-Inv [] p m h = h
  scan_from-Inv (t ∷ ts) p m h =
      let found = scan rc t p.matched_inv_ids invoices in
      scan_from-Inv ts (note_match t found p) m.1 (
        note_match-Inv t found p m.0 (λ inv e. scan-IsFound rc t p.matched_inv_ids invoices inv e)
          h)

  no_matches-Inv : Inv no_matches
  unfolding mem_id
  no_matches-Inv = record { exact = tt; once = λ i. omega arith; taken = λ i. refl }

  note_match-each :
      (i : ℕ) (t : Transaction) (o : Option Invoice) (p : Pass)
      → count_txn i (note_match t o p).matches ≤ count_txn i p.matches + weight (t.id == i)
  unfolding note_match
  note_match-each i t none p = omega arith
  note_match-each i t (some inv) p =
      omega (arith, count_txn-append i p.matches (exact_match t inv ∷ []))

  -- A transaction is matched no more often than it occurs.
  scan_from-each :
      (i : ℕ) (txns : List Transaction) (p : Pass)
      → count_txn i (scan_from rc txns invoices p).matches
        ≤ count_txn i p.matches + occurrences i txns
  unfolding scan_from
  scan_from-each i [] p = omega arith
  scan_from-each i (t ∷ ts) p =
      let found = scan rc t p.matched_inv_ids invoices in
      omega (arith, note_match-each i t found p, scan_from-each i ts (note_match t found p))

  IsServed-later : (t : Transaction) (p q : Pass) → Grows p q → IsServed p t → IsServed q t
  unfolding IsServed
  IsServed-later t p q g (inl h) = inl (omega (arith, g.txn t.id, h))
  IsServed-later t p q g (inr h) = inr (
      All-map (λ (inv : Invoice). is_exact rc t inv ≡ true → 1 ≤ count_inv inv.id p.matches)
        (λ (inv : Invoice). is_exact rc t inv ≡ true → 1 ≤ count_inv inv.id q.matches) invoices
        (λ inv k fit. omega (arith, k fit, g.inv inv.id)) h)

  taken-one : (c : ℕ) → true ≡ ltb 0 c → 1 ≤ c
  taken-one c h = ground arith

  note_match-IsServed :
      (t : Transaction) (p : Pass)
      → Inv p
      → IsServed (note_match t (scan rc t p.matched_inv_ids invoices) p) t
  unfolding IsServed note_match
  note_match-IsServed t p h = elim (Option-cases (scan rc t p.matched_inv_ids invoices)) [
    | inl e ↦ rw e (
        inr (
          All-map
            (λ (inv : Invoice). is_exact rc t inv ≡ true → mem_id inv.id p.matched_inv_ids ≡ true)
            (λ (inv : Invoice). is_exact rc t inv ≡ true → 1 ≤ count_inv inv.id p.matches) invoices
            (λ inv k fit. taken-one (count_inv inv.id p.matches) (sym (k fit) ∙ h.taken inv.id))
            (scan-none rc t p.matched_inv_ids invoices e)))
    | inr (inv, e) ↦ rw e (
        inl (
          omega
            (arith, count_txn-append t.id p.matches (exact_match t inv ∷ []), weight_self t.id)))
  ]

  scan_from-IsServed :
      (txns : List Transaction) (p : Pass)
      → All (λ (t : Transaction). Mem t all) txns
      → Inv p
      → All (IsServed (scan_from rc txns invoices p)) txns
  unfolding scan_from
  scan_from-IsServed [] p m h = tt
  scan_from-IsServed (t ∷ ts) p m h =
      let found = scan rc t p.matched_inv_ids invoices in
      let next = note_match t found p in
      (
        IsServed-later t next (scan_from rc ts invoices next) (scan_from-Grows ts next)
            (note_match-IsServed t p h),
        scan_from-IsServed ts next m.1 (
            note_match-Inv t found p m.0
              (λ inv e. scan-IsFound rc t p.matched_inv_ids invoices inv e) h),
      )

  -- What is promised of the exact pass.
  pub record IsMatching (pass : Pass) : Type 0 where
    pub exact : All IsExactMatch pass.matches
    pub once : (i : ℕ) → count_inv i pass.matches ≤ 1
    pub each : (i : ℕ) → count_txn i pass.matches ≤ occurrences i all
    pub served : All (IsServed pass) all

  -- Each match of the exact pass takes its data from a transaction and an invoice of the batch
  -- that pass the tests of amount, date and reference; no invoice is matched twice, and no
  -- transaction id more often than it occurs; and each transaction has a match or every invoice
  -- that fits it went to a match.
  pub pass1_exact-IsMatching : IsMatching (pass1_exact rc all invoices)
  unfolding pass1_nested
  pass1_exact-IsMatching =
      let inv = scan_from-Inv all no_matches (All-Mem all) no_matches-Inv in
      rw (pass1_exact-eq-nested rc all invoices) (record {
        exact = inv.exact;
        once = inv.once;
        each = λ i. omega (arith, scan_from-each i all no_matches);
        served = scan_from-IsServed all no_matches (All-Mem all) no_matches-Inv;
      })
