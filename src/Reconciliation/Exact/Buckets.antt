-- ===== src/Reconciliation/Exact/Buckets.antt =====
-- The sorted candidates are the invoices of their buckets, in the order of the scan.
use finguard.Base.{
  ◌||◌, ℕ, zero, suc, ◌+◌, ◌<◌, ◌≡◌, refl, sym, ap, inl, inr, ◌∙◌, Bool, true, false, List, [], ◌∷◌,
  ◌++◌, if◌then◌else◌, All, All-append, All-map, Bool-cases, arith, if_elim,
}
use mathlib.Core.List.{append_assoc, append-nil}
use finguard.Base.Int.{ℤ, pos, ◌+ℤ◌, eqb_ℤ, int_laws, ◌<ℤ◌, ◌≤ℤ◌}
use finguard.Finance.Rows.{Invoice}
use finguard.Reconciliation.Exact.{
  Entry, Buckets, get_bucket, append_bucket, bucket_from, gather, insert_entry, sort_entries,
  floor_kes,
}

abbrev pub AllBelow : ℕ → List Entry → Type 0
AllBelow n = All (λ (e : Entry). e.0 < n)

-- All entries of the buckets stand before a place.
abbrev pub Below : ℕ → Buckets → Type 0
Below n = All (λ (b : ℤ × List Entry). AllBelow n b.1)

insert_entry-AllBelow :
    (n : ℕ) (e : Entry) (xs : List Entry) → e.0 < n → AllBelow n xs → AllBelow n (insert_entry e xs)
unfolding insert_entry
insert_entry-AllBelow n e [] h k = (h, tt)
insert_entry-AllBelow n e (x ∷ xs) h k = ground (arith, insert_entry-AllBelow n e xs h k.1)

sort_entries-AllBelow : (n : ℕ) (xs : List Entry) → AllBelow n xs → AllBelow n (sort_entries xs)
unfolding sort_entries
sort_entries-AllBelow n [] h = tt
sort_entries-AllBelow n (x ∷ xs) h =
    insert_entry-AllBelow n x (sort_entries xs) h.0 (sort_entries-AllBelow n xs h.1)

-- An entry behind all others goes to the end.
insert_entry-last :
    (e : Entry) (xs : List Entry) → AllBelow e.0 xs → insert_entry e xs ≡ xs ++ e ∷ []
unfolding insert_entry
insert_entry-last e [] h = refl
insert_entry-last e (x ∷ xs) h = ground (arith, h.0, insert_entry-last e xs h.1)

insert_entry-snoc :
    (e last : Entry) (xs : List Entry)
    → e.0 < last.0
    → insert_entry e (xs ++ last ∷ []) ≡ insert_entry e xs ++ last ∷ []
unfolding insert_entry
insert_entry-snoc e last [] h = ground (arith, h)
insert_entry-snoc e last (x ∷ xs) h = ground (arith, insert_entry-snoc e last xs h)

-- Entries in front of others that are sorted.
insert_all : List Entry → List Entry → List Entry
insert_all [] ys = ys
insert_all (x ∷ xs) ys = insert_entry x (insert_all xs ys)

sort_entries-append :
    (xs ys : List Entry) → sort_entries (xs ++ ys) ≡ insert_all xs (sort_entries ys)
unfolding sort_entries insert_all
sort_entries-append [] ys = refl
sort_entries-append (x ∷ xs) ys = ap (insert_entry x) (sort_entries-append xs ys)

insert_all-snoc :
    (last : Entry) (xs ys : List Entry)
    → AllBelow last.0 xs
    → insert_all xs (ys ++ last ∷ []) ≡ insert_all xs ys ++ last ∷ []
unfolding insert_all
insert_all-snoc last [] ys h = refl
insert_all-snoc last (x ∷ xs) ys h =
    rw (insert_all-snoc last xs ys h.1) (insert_entry-snoc x last (insert_all xs ys) h.0)

-- An entry behind all others, wherever it stands before the sort.
sort_entries-middle :
    (last : Entry) (xs ys : List Entry)
    → AllBelow last.0 xs
    → AllBelow last.0 ys
    → sort_entries ((xs ++ last ∷ []) ++ ys) ≡ sort_entries (xs ++ ys) ++ last ∷ []
unfolding sort_entries
sort_entries-middle last [] ys h k =
    insert_entry-last last (sort_entries ys) (sort_entries-AllBelow last.0 ys k)
sort_entries-middle last (x ∷ xs) ys h k =
    rw (sort_entries-middle last xs ys h.1 k)
      (insert_entry-snoc x last (sort_entries (xs ++ ys)) h.0)

get_bucket-append_bucket :
    (k q : ℤ) (e : Entry) (bs : Buckets)
    → get_bucket k (append_bucket q e bs)
      ≡ (if eqb_ℤ q k then get_bucket k bs ++ e ∷ [] else get_bucket k bs)
unfolding get_bucket append_bucket
get_bucket-append_bucket k q e [] = ground arith
get_bucket-append_bucket k q e (b ∷ bs) = ground (arith, get_bucket-append_bucket k q e bs)

get_bucket-AllBelow : (n : ℕ) (k : ℤ) (bs : Buckets) → Below n bs → AllBelow n (get_bucket k bs)
unfolding get_bucket
get_bucket-AllBelow n k [] h = tt
get_bucket-AllBelow n k (b ∷ bs) h =
    if_elim (AllBelow n) (eqb_ℤ b.0 k) b.1 (get_bucket k bs) h.0 (get_bucket-AllBelow n k bs h.1)

gather-AllBelow :
    (n : ℕ) (k : ℤ) (count : ℕ) (bs : Buckets) → Below n bs → AllBelow n (gather k count bs)
unfolding gather
gather-AllBelow n k zero bs h = tt
gather-AllBelow n k (suc count) bs h =
    All-append (λ (e : Entry). e.0 < n) (get_bucket k bs) (gather (k +ℤ pos 1) count bs)
      (get_bucket-AllBelow n k bs h) (gather-AllBelow n (k +ℤ pos 1) count bs h)

lt→eqb_ℤ : (a b : ℤ) → a <ℤ b → eqb_ℤ a b ≡ false
lt→eqb_ℤ a b h = ground arith

eqb→lt-suc : (a b : ℤ) → eqb_ℤ a b ≡ true → a <ℤ b +ℤ pos 1
eqb→lt-suc a b h = let le : a ≤ℤ b = ground (arith, h) in omega (int_laws, le)

lt-suc : (a b : ℤ) → a <ℤ b → a <ℤ b +ℤ pos 1
lt-suc a b h = omega int_laws

-- A key below the first one does not change what is gathered.
gather-append_bucket_before :
    (k : ℤ) (count : ℕ) (q : ℤ) (e : Entry) (bs : Buckets)
    → q <ℤ k
    → gather k count (append_bucket q e bs) ≡ gather k count bs
unfolding gather
gather-append_bucket_before k zero q e bs h = refl
gather-append_bucket_before k (suc count) q e bs h =
    rw
      (
        get_bucket-append_bucket k q e bs,
        lt→eqb_ℤ q k h,
        gather-append_bucket_before (k +ℤ pos 1) count q e bs (lt-suc q k h),
      )
      refl

-- The keys from `k` on, `count` of them.
abbrev pub in_keys : ℤ → ℕ → ℤ → Bool
in_keys k zero q = false
in_keys k (suc count) q = eqb_ℤ q k || in_keys (k +ℤ pos 1) count q

sort-gather-append_bucket :
    (k : ℤ) (count : ℕ) (q : ℤ) (e : Entry) (bs : Buckets)
    → Below e.0 bs
    → sort_entries (gather k count (append_bucket q e bs)) ≡ (
        if in_keys k count q
        then sort_entries (gather k count bs) ++ e ∷ []
        else sort_entries (gather k count bs))
unfolding gather
sort-gather-append_bucket k zero q e bs h = refl
sort-gather-append_bucket k (suc count) q e bs h =
    let rest = gather (k +ℤ pos 1) count bs in
    let at_key = get_bucket k bs in
    let below = get_bucket-AllBelow e.0 k bs h in
    elim (Bool-cases (eqb_ℤ q k)) [
      | inl same ↦
          rw
            (
              get_bucket-append_bucket k q e bs,
              same,
              gather-append_bucket_before (k +ℤ pos 1) count q e bs (eqb→lt-suc q k same),
            )
            (sort_entries-middle e at_key rest below (gather-AllBelow e.0 (k +ℤ pos 1) count bs h))
      | inr other ↦
          rw
            (
              get_bucket-append_bucket k q e bs,
              other,
              sort_entries-append at_key (gather (k +ℤ pos 1) count (append_bucket q e bs)),
              sort_entries-append at_key rest,
              sort-gather-append_bucket (k +ℤ pos 1) count q e bs h,
            )
            (elim (Bool-cases (in_keys (k +ℤ pos 1) count q)) [
              | inl inside ↦ rw inside (insert_all-snoc e at_key (sort_entries rest) below)
              | inr outside ↦ rw outside refl
            ])
    ]

append_bucket-Below :
    (n : ℕ) (q : ℤ) (e : Entry) (bs : Buckets)
    → e.0 < n
    → Below n bs
    → Below n (append_bucket q e bs)
unfolding append_bucket
append_bucket-Below n q e [] h k = ((h, tt), tt)
append_bucket-Below n q e (b ∷ bs) h k =
    if_elim (Below n) (eqb_ℤ b.0 q) ((b.0, b.1 ++ e ∷ []) ∷ bs) (b ∷ append_bucket q e bs)
      (All-append (λ (e : Entry). e.0 < n) b.1 (e ∷ []) k.0 (h, tt), k.1)
      (k.0, append_bucket-Below n q e bs h k.1)

Below-suc : (n : ℕ) (bs : Buckets) → Below n bs → Below (n + 1) bs
Below-suc n bs h =
    All-map (λ (b : ℤ × List Entry). AllBelow n b.1) (λ (b : ℤ × List Entry). AllBelow (n + 1) b.1)
      bs
      (λ b k.
        All-map (λ (e : Entry). e.0 < n) (λ (e : Entry). e.0 < n + 1) b.1 (λ e l. omega arith) k)
      h

-- The invoices with their places, of those whose shilling is among the keys.
unfoldable pub near : ℤ → ℕ → ℕ → List Invoice → List Entry
near k count idx [] = []
near k count idx (inv ∷ invs) =
    let rest = near k count (idx + 1) invs in
    if in_keys k count (floor_kes inv.balance_due) then (idx, inv) ∷ rest else rest

-- What the buckets gather, sorted, are the near invoices in the order of the scan.
pub sort-gather-bucket_from :
    (k : ℤ) (count idx : ℕ) (invs : List Invoice) (bs : Buckets)
    → Below idx bs
    → sort_entries (gather k count (bucket_from idx invs bs))
      ≡ sort_entries (gather k count bs) ++ near k count idx invs
unfolding bucket_from near
sort-gather-bucket_from k count idx [] bs h = sym (append-nil (sort_entries (gather k count bs)))
sort-gather-bucket_from k count idx (inv ∷ invs) bs h =
    let q = floor_kes inv.balance_due in
    let sorted = sort_entries (gather k count bs) in
    sort-gather-bucket_from k count (idx + 1) invs (append_bucket q (idx, inv) bs)
      (append_bucket-Below (idx + 1) q (idx, inv) bs (omega arith) (Below-suc idx bs h))
    ∙ rw (sort-gather-append_bucket k count q (idx, inv) bs h)
        (elim (Bool-cases (in_keys k count q)) [
          | inl inside ↦
              rw inside (append_assoc sorted ((idx, inv) ∷ []) (near k count (idx + 1) invs))
          | inr outside ↦ rw outside refl
        ])
