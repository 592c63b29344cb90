-- ===== src/Inventory/Catalogue/Skus.antt =====
-- The catalogue keeps one product for an SKU, and leaves the stock alone.
use text.Mathlib.Text.{◌==◌ as str_eq}
use text.Mathlib.TextEquality.{eq_iff}
use mathlib.Core.Path.{subst}
use finguard.Base.{
  weight, ℕ, ◌+◌, ◌≤◌, ◌≡◌, ◌==◌, refl, sym, ap, ◌∙◌, inl, inr, true, false, some, List, [], ◌∷◌,
  ◌++◌, String, arith, Bool-cases,
}
use finguard.Base.Table.{find_row, save_row, find_row-key}
use finguard.Core.Errors.{Ensures, Ensures-raise_if, Ensures-or_raise}
use finguard.Core.Errors.AppError.{conflict, not_found}
use finguard.Inventory.Rows.{Product, Warehouse, find_product}
use finguard.Inventory.Catalogue.{
  has_sku, ProductCreate, product_row, create_product, ProductUpdate, updated, update_product,
}

-- How many products have the SKU.
abbrev count_sku : String → List Product → ℕ
count_sku sku [] = 0
count_sku sku (p ∷ ps) = weight (str_eq p.sku sku) + count_sku sku ps

abbrev pub IsUniqueSku : List Product → Type 0
IsUniqueSku ps = (sku : String) → count_sku sku ps ≤ 1

count_sku-append :
    (sku : String) (ps qs : List Product)
    → count_sku sku (ps ++ qs) ≡ count_sku sku ps + count_sku sku qs
count_sku-append sku [] qs = omega arith
count_sku-append sku (p ∷ ps) qs = omega (arith, count_sku-append sku ps qs)

has_sku-none : (sku : String) (ps : List Product) → has_sku sku ps ≡ false → count_sku sku ps ≡ 0
unfolding has_sku
has_sku-none sku [] h = refl
has_sku-none sku (p ∷ ps) h = elim (Bool-cases (str_eq p.sku sku)) [
  | inl k ↦ absurd (rw k at h)
  | inr k ↦ omega (arith, ap weight k, has_sku-none sku ps (rw k at h))
]
  where
    absurd : true ≡ false → weight (str_eq p.sku sku) + count_sku sku ps ≡ 0
    absurd e = cc

-- The catalogue after a call: still one product for an SKU, and the same stock.
pub record IsCatalogued (w : Warehouse) (r : Product × Warehouse) : Type 0 where
  pub unique : IsUniqueSku w.products → IsUniqueSku r.1.products
  pub levels : r.1.levels ≡ w.levels
  pub movements : r.1.movements ≡ w.movements

pub create_product-IsCatalogued :
    (body : ProductCreate) (id : ℕ) (w : Warehouse)
    → Ensures (IsCatalogued w) (create_product body id w)
unfolding create_product
create_product-IsCatalogued body id w =
    Ensures-raise_if (IsCatalogued w) (has_sku body.sku w.products) conflict _ (λ free. record {
      unique = λ h sku. one_more sku (has_sku-none body.sku w.products free) (h sku);
      levels = refl;
      movements = refl;
    })
  where
    one_more :
        (sku : String)
        → count_sku body.sku w.products ≡ 0
        → count_sku sku w.products ≤ 1
        → count_sku sku (w.products ++ product_row body id ∷ []) ≤ 1
    one_more sku none_yet h = elim (Bool-cases (str_eq body.sku sku)) [
      | inl k ↦
          let free : count_sku sku w.products ≡ 0 =
            subst (λ s. count_sku s w.products ≡ 0) ((eq_iff body.sku sku).0 k) none_yet in
          omega
            (arith, free, ap weight k, count_sku-append sku w.products (product_row body id ∷ []))
      | inr k ↦
          omega (arith, h, ap weight k, count_sku-append sku w.products (product_row body id ∷ []))
    ]

save_row-count_sku :
    (sku : String) (r p : Product) (ps : List Product)
    → r.sku ≡ p.sku
    → find_row (λ (x : Product). x.id) r.id ps ≡ some p
    → count_sku sku (save_row (λ (x : Product). x.id) r ps) ≡ count_sku sku ps
unfolding save_row find_row
save_row-count_sku sku r p [] s h = cc
save_row-count_sku sku r p (x ∷ ps) s h = elim (Bool-cases (x.id == r.id)) [
  | inl k ↦ rw k (replaced (rw k at h))
  | inr k ↦ rw k (omega (arith, save_row-count_sku sku r p ps s (rw k at h)))
]
  where
    replaced :
        some x ≡ some p
        → weight (str_eq r.sku sku) + count_sku sku ps
          ≡ weight (str_eq x.sku sku) + count_sku sku ps
    replaced e =
        let same : x ≡ p = cc in
        ap (λ t. weight (str_eq t sku) + count_sku sku ps)
          (s ∙ ap (λ (q : Product). q.sku) (sym same))

pub update_product-IsCatalogued :
    (i : ℕ) (body : ProductUpdate) (w : Warehouse)
    → Ensures (IsCatalogued w) (update_product i body w)
unfolding update_product
update_product-IsCatalogued i body w =
    Ensures-or_raise (IsCatalogued w) (find_product i w) not_found _ (λ p found. record {
      unique = λ h sku.
          let found_here : find_product p.id w ≡ some p =
            subst (λ j. find_product j w ≡ some p)
              (sym (find_row-key (λ (x : Product). x.id) i w.products p found)) found in
          rw (save_row-count_sku sku (updated body p) p w.products refl found_here) (h sku);
      levels = refl;
      movements = refl;
    })
