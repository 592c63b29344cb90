-- ===== src/Finance/Fold/Order.antt =====
-- The order in which the rows of a log are handed to the fold does not matter.
use mathlib.Core.Path.{ap₂, subst, subst₂}
use mathlib.Core.Logic.{∥∥₁_elim}
use mathlib.Core.List.{Perm, Permᴰ}
use native.Mathlib.Decide.{ℕ_discrete}
use finguard.Base.{◌≡◌, ◌≢◌, refl, sym, ap, ◌∙◌, List, [], ◌∷◌, All}
use finguard.Finance.Fold.{InvoiceState, fold_invoice_events, replay_from}
use finguard.Finance.Fold.Event.{InvoiceEvent}
use finguard.Finance.Fold.Sorting.{insert_event, sort_events, insert_event_comm}

-- No two events have the same sequence number: the unique constraint of `invoice_events`.
abbrev pub Distinct : List InvoiceEvent → Type 0
Distinct [] = Unit
Distinct (x ∷ xs) = All (λ y. x.sequence ≢ y.sequence) xs × Distinct xs

All-perm :
    (s : InvoiceEvent) {xs ys : List InvoiceEvent}
    → Permᴰ xs ys
    → All (λ y. s.sequence ≢ y.sequence) xs
    → All (λ y. s.sequence ≢ y.sequence) ys
All-perm s Permᴰ.nil h = tt
All-perm s (Permᴰ.cons e p) h = (subst (λ y. s.sequence ≢ y.sequence) e h.0, All-perm s p h.1)
All-perm s (Permᴰ.swap {l = l} e f) h =
    subst₂ (λ u v. All (λ y. s.sequence ≢ y.sequence) (u ∷ v ∷ l)) f e (h.1.0, (h.0, h.1.1))
All-perm s (Permᴰ.trans p q) h = All-perm s q (All-perm s p h)

Distinct-perm : {xs ys : List InvoiceEvent} → Permᴰ xs ys → Distinct xs → Distinct ys
Distinct-perm Permᴰ.nil h = tt
Distinct-perm (Permᴰ.cons {a = a} {l₂ = ys} e p) h =
    subst (λ x. Distinct (x ∷ ys)) e (All-perm a p h.0, Distinct-perm p h.1)
Distinct-perm (Permᴰ.swap {l = l} e f) h =
    subst₂ (λ u v. Distinct (u ∷ v ∷ l)) f e (((λ x. h.0.0 (sym x)), h.1.0), (h.0.1, h.1.1))
Distinct-perm (Permᴰ.trans p q) h = Distinct-perm q (Distinct-perm p h)

sort_events-perm :
    {xs ys : List InvoiceEvent} → Permᴰ xs ys → Distinct xs → sort_events xs ≡ sort_events ys
unfolding sort_events
sort_events-perm Permᴰ.nil h = refl
sort_events-perm (Permᴰ.cons e p) h = ap₂ insert_event e (sort_events-perm p h.1)
sort_events-perm (Permᴰ.swap {a = a} {b = b} {l = l} e f) h =
    insert_event_comm a b (sort_events l) h.0.0
    ∙ ap₂ insert_event f (ap (λ x. insert_event x (sort_events l)) e)
sort_events-perm (Permᴰ.trans p q) h = sort_events-perm p h ∙ sort_events-perm q (Distinct-perm p h)

InvoiceState-set : IsSet InvoiceState
InvoiceState-set = hlevel ℕ_discrete

-- Two logs that are permutations of each other, with no sequence number twice, fold to the same
-- state.
pub fold-perm :
    (xs ys : List InvoiceEvent)
    → Perm xs ys
    → Distinct xs
    → fold_invoice_events xs ≡ fold_invoice_events ys
unfolding fold_invoice_events replay_from
fold-perm xs ys p h = ∥∥₁_elim p (InvoiceState-set _ _) (λ q. rw (sort_events-perm q h))
