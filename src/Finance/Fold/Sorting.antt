-- ===== src/Finance/Fold/Sorting.antt =====
-- `sorted(events, key=lambda e: e.sequence)`, and what it does to filtered and appended logs.
use finguard.Base.{
  ℕ, ◌<◌, ◌≤◌, ◌≡◌, ◌≢◌, refl, List, [], ◌∷◌, ◌++◌, leb, ltb, max, if◌then◌else◌, arith, Bool-cases,
  inl, inr, All,
}
use finguard.Base.Table.{select}
use finguard.Finance.Fold.Event.{InvoiceEvent}

-- A stable sort: an event goes before those with the same sequence that came after it.
unfoldable pub insert_event : InvoiceEvent → List InvoiceEvent → List InvoiceEvent
insert_event e [] = e ∷ []
insert_event e (x ∷ xs) = if leb e.sequence x.sequence then e ∷ x ∷ xs else x ∷ insert_event e xs

unfoldable pub sort_events : List InvoiceEvent → List InvoiceEvent
sort_events [] = []
sort_events (e ∷ es) = insert_event e (sort_events es)

-- The events up to a sequence number, and those after it.
abbrev pub upto : ℕ → List InvoiceEvent → List InvoiceEvent
upto s = select (λ e. leb e.sequence s)

abbrev pub after : ℕ → List InvoiceEvent → List InvoiceEvent
after s = select (λ e. ltb s e.sequence)

abbrev AllUpto : ℕ → List InvoiceEvent → Type 0
AllUpto s = All (λ e. e.sequence ≤ s)

abbrev AllAfter : ℕ → List InvoiceEvent → Type 0
AllAfter s = All (λ e. s < e.sequence)

insert_event-AllUpto :
    (s : ℕ) (e : InvoiceEvent) (xs : List InvoiceEvent)
    → e.sequence ≤ s
    → AllUpto s xs
    → AllUpto s (insert_event e xs)
unfolding insert_event
insert_event-AllUpto s e [] p h = (p, tt)
insert_event-AllUpto s e (x ∷ xs) p h = ground (arith, insert_event-AllUpto s e xs p h.1)

insert_event-AllAfter :
    (s : ℕ) (e : InvoiceEvent) (xs : List InvoiceEvent)
    → s < e.sequence
    → AllAfter s xs
    → AllAfter s (insert_event e xs)
unfolding insert_event
insert_event-AllAfter s e [] p h = (p, tt)
insert_event-AllAfter s e (x ∷ xs) p h = ground (arith, insert_event-AllAfter s e xs p h.1)

sort_upto-AllUpto : (s : ℕ) (es : List InvoiceEvent) → AllUpto s (sort_events (upto s es))
unfolding sort_events select
sort_upto-AllUpto s [] = tt
sort_upto-AllUpto s (e ∷ es) = elim (Bool-cases (leb e.sequence s)) [
  | inl h ↦
      rw h
        (insert_event-AllUpto s e (sort_events (upto s es)) (ground arith) (sort_upto-AllUpto s es))
  | inr h ↦ rw h (sort_upto-AllUpto s es)
]

sort_after-AllAfter : (s : ℕ) (es : List InvoiceEvent) → AllAfter s (sort_events (after s es))
unfolding sort_events select
sort_after-AllAfter s [] = tt
sort_after-AllAfter s (e ∷ es) = elim (Bool-cases (ltb s e.sequence)) [
  | inl h ↦ rw h (
      insert_event-AllAfter s e (sort_events (after s es)) (ground arith)
        (sort_after-AllAfter s es))
  | inr h ↦ rw h (sort_after-AllAfter s es)
]

-- An early event is inserted among the early ones.
insert_event-append_early :
    (s : ℕ) (e : InvoiceEvent) (xs ys : List InvoiceEvent)
    → e.sequence ≤ s
    → AllAfter s ys
    → insert_event e (xs ++ ys) ≡ insert_event e xs ++ ys
unfolding insert_event
insert_event-append_early s e [] [] p h = refl
insert_event-append_early s e [] (y ∷ ys) p h = ground arith
insert_event-append_early s e (x ∷ xs) ys p h =
    ground (arith, insert_event-append_early s e xs ys p h)

insert_event-append_late :
    (s : ℕ) (e : InvoiceEvent) (xs ys : List InvoiceEvent)
    → s < e.sequence
    → AllUpto s xs
    → insert_event e (xs ++ ys) ≡ xs ++ insert_event e ys
unfolding insert_event
insert_event-append_late s e [] ys p h = refl
insert_event-append_late s e (x ∷ xs) ys p h =
    ground (arith, insert_event-append_late s e xs ys p h.1)

-- Sorting a log sorts what lies up to any cut, and then what lies after it.
pub sort_events-split :
    (s : ℕ) (es : List InvoiceEvent)
    → sort_events es ≡ sort_events (upto s es) ++ sort_events (after s es)
unfolding sort_events select
sort_events-split s [] = refl
sort_events-split s (e ∷ es) = ground (
  arith,
  sort_events-split s es,
  insert_event-append_early s e (sort_events (upto s es)) (sort_events (after s es)),
  insert_event-append_late s e (sort_events (upto s es)) (sort_events (after s es)),
  sort_upto-AllUpto s es,
  sort_after-AllAfter s es,
)

-- The largest sequence number of a log, `SELECT max(sequence)`; 0 for no rows.
unfoldable pub max_sequence : List InvoiceEvent → ℕ
max_sequence [] = 0
max_sequence (e ∷ es) = max e.sequence (max_sequence es)

pub max_sequence-append :
    (xs ys : List InvoiceEvent) → max_sequence (xs ++ ys) ≡ max (max_sequence xs) (max_sequence ys)
unfolding max_sequence
max_sequence-append [] ys = omega arith
max_sequence-append (x ∷ xs) ys = omega (arith, max_sequence-append xs ys)

max_sequence-insert_event :
    (e : InvoiceEvent) (es : List InvoiceEvent)
    → max_sequence (insert_event e es) ≡ max e.sequence (max_sequence es)
unfolding max_sequence insert_event
max_sequence-insert_event e [] = refl
max_sequence-insert_event e (x ∷ xs) = ground (arith, max_sequence-insert_event e xs)

pub max_sequence-sort_events :
    (es : List InvoiceEvent) → max_sequence (sort_events es) ≡ max_sequence es
unfolding max_sequence sort_events
max_sequence-sort_events [] = refl
max_sequence-sort_events (e ∷ es) =
    omega (arith, max_sequence-insert_event e (sort_events es), max_sequence-sort_events es)

-- A cut at or above the largest sequence number leaves nothing after it.
pub upto_all : (s : ℕ) (es : List InvoiceEvent) → max_sequence es ≤ s → upto s es ≡ es
unfolding max_sequence select
upto_all s [] h = refl
upto_all s (e ∷ es) h = ground (arith, upto_all s es)

pub after_none : (s : ℕ) (es : List InvoiceEvent) → max_sequence es ≤ s → after s es ≡ []
unfolding max_sequence select
after_none s [] h = refl
after_none s (e ∷ es) h = ground (arith, after_none s es)

-- An event beyond the cut is not before it.
pub upto-append_newer :
    (s : ℕ) (es : List InvoiceEvent) (e : InvoiceEvent)
    → s < e.sequence
    → upto s (es ++ e ∷ []) ≡ upto s es
unfolding select
upto-append_newer s [] e h = ground arith
upto-append_newer s (x ∷ xs) e h = ground (arith, upto-append_newer s xs e h)

-- An event with a new largest sequence number is sorted last.
pub sort_events-append_newest :
    (es : List InvoiceEvent) (e : InvoiceEvent)
    → max_sequence es < e.sequence
    → sort_events (es ++ e ∷ []) ≡ sort_events es ++ e ∷ []
unfolding sort_events insert_event max_sequence
sort_events-append_newest [] e h = refl
sort_events-append_newest (x ∷ xs) e h = rw (sort_events-append_newest xs e (omega arith)) (
    insert_event-append_early (max_sequence (x ∷ xs)) x (sort_events xs) (e ∷ []) (omega arith)
      (h, tt))

abbrev IsSorted : List InvoiceEvent → Type 0
IsSorted [] = Unit
IsSorted (x ∷ xs) = All (λ e. x.sequence ≤ e.sequence) xs × IsSorted xs

insert_event-All_le :
    (s : ℕ) (e : InvoiceEvent) (xs : List InvoiceEvent)
    → s ≤ e.sequence
    → All (λ x. s ≤ x.sequence) xs
    → All (λ x. s ≤ x.sequence) (insert_event e xs)
unfolding insert_event
insert_event-All_le s e [] p h = (p, tt)
insert_event-All_le s e (x ∷ xs) p h = ground (arith, insert_event-All_le s e xs p h.1)

All-le_trans :
    (s t : ℕ) (xs : List InvoiceEvent)
    → s ≤ t
    → All (λ x. t ≤ x.sequence) xs
    → All (λ x. s ≤ x.sequence) xs
All-le_trans s t [] p h = tt
All-le_trans s t (x ∷ xs) p h = (omega arith, All-le_trans s t xs p h.1)

insert_event-IsSorted :
    (e : InvoiceEvent) (xs : List InvoiceEvent) → IsSorted xs → IsSorted (insert_event e xs)
unfolding insert_event
insert_event-IsSorted e [] h = (tt, tt)
insert_event-IsSorted e (x ∷ xs) h = elim (Bool-cases (leb e.sequence x.sequence)) [
  | inl le ↦ rw le ((ground arith, All-le_trans e.sequence x.sequence xs (ground arith) h.0), h)
  | inr gt ↦
      rw gt (insert_event-All_le x.sequence e xs (ground arith) h.0, insert_event-IsSorted e xs h.1)
]

sort_events-IsSorted : (es : List InvoiceEvent) → IsSorted (sort_events es)
unfolding sort_events
sort_events-IsSorted [] = tt
sort_events-IsSorted (e ∷ es) = insert_event-IsSorted e (sort_events es) (sort_events-IsSorted es)

insert_event-first :
    (e : InvoiceEvent) (xs : List InvoiceEvent)
    → All (λ x. e.sequence ≤ x.sequence) xs
    → insert_event e xs ≡ e ∷ xs
unfolding insert_event
insert_event-first e [] h = refl
insert_event-first e (x ∷ xs) h = ground arith

sort_events_of_IsSorted : (es : List InvoiceEvent) → IsSorted es → sort_events es ≡ es
unfolding sort_events
sort_events_of_IsSorted [] h = refl
sort_events_of_IsSorted (e ∷ es) h =
    rw (sort_events_of_IsSorted es h.1) (insert_event-first e es h.0)

-- Sorting twice is sorting once.
pub sort_events_idem : (es : List InvoiceEvent) → sort_events (sort_events es) ≡ sort_events es
sort_events_idem es = sort_events_of_IsSorted (sort_events es) (sort_events-IsSorted es)

-- Events with different sequence numbers may be inserted in either order.
pub insert_event_comm :
    (a b : InvoiceEvent) (xs : List InvoiceEvent)
    → a.sequence ≢ b.sequence
    → insert_event a (insert_event b xs) ≡ insert_event b (insert_event a xs)
unfolding insert_event
insert_event_comm a b [] h = ground arith
insert_event_comm a b (x ∷ xs) h = ground (arith, insert_event_comm a b xs h)
