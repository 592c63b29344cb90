-- ===== src/Finance/Purchases/Tests.antt =====
-- Sales and purchases of one product, with the alert that they raise and clear.
use Prim.Native.String.{char_at, ◌∷◌ as cons}
use finguard.Base.{ℕ, zero, suc, ◌≡◌, refl, sym, ap, ◌∙◌, true, none, some, [], ◌∷◌, String}
use finguard.Base.Text.{str_length}
use finguard.Base.Int.{◌-ℤ◌, pos, ◌+ℤ◌}
use finguard.Base.Table.{find_row, select}
use finguard.Core.Errors.{ok, Ensures}
use finguard.Finance.Types.{mpesa}
use finguard.Finance.Purchases.{Store, StockPurchaseCreate, create_stock_purchase}
use finguard.Finance.Purchases.Received.{IsPurchased, Outcome, create_stock_purchase-IsPurchased}
use finguard.Finance.Purchases.Runs.{StoreStep, StoreReach, StoreReach-IsFresh}
use finguard.Inventory.Rows.{Product, StockMovement, sale, get_or_create_level}
use finguard.Inventory.Movements.{
  InventoryMovementCreate, requested, record_movement, apply_movement, move_level,
}
use finguard.Inventory.LowStock.{Shop, run_movement}
use finguard.Inventory.LowStock.Fresh.{IsFresh, IsWatched}
use finguard.Inventory.LowStock.Calls.{run_movement-IsWatched}

-- The text of an id, as so many strokes.
strokes : ℕ → String
strokes zero = ""
strokes (suc n) = cons (char_at "I" 0) (strokes n)

str_length-strokes : (n : ℕ) → str_length (strokes n) ≡ n
unfolding strokes str_length
str_length-strokes zero = refl
str_length-strokes (suc n) = ap suc (str_length-strokes n)

strokes_injective : (i j : ℕ) → strokes i ≡ strokes j → i ≡ j
strokes_injective i j h = sym (str_length-strokes i) ∙ ap str_length h ∙ str_length-strokes j

abbrev flour : Product
flour = record {
  id = 1;
  sku = "FLR";
  name = "Flour";
  category = none;
  reorder_level = pos 5000;
  is_active = true;
}

abbrev pantry : Shop
pantry = record {
  warehouse = record {
    products = flour ∷ [];
    levels =
        record {
          product_id = 1;
          quantity_on_hand = pos 8000;
          quantity_reserved = pos 0;
          average_cost = pos 120;
        }
        ∷ [];
    movements = [];
  };
  alerts = [];
}

pantry-IsFresh : IsFresh strokes pantry
unfolding select
pantry-IsFresh = λ i product f policy above. refl

abbrev store : Store
store = record {
  db = record {
    invoices = [];
    events = [];
    snapshots = [];
    payments = [];
    expenses = [];
    budgets = [];
    mpesa = [];
    bank_lines = [];
    transfers = [];
    customers = [];
    users = [];
    outbox = [];
    mail = record { outbox = []; opt_outs = [] };
  };
  shop = pantry;
}

abbrev sold : InventoryMovementCreate
sold = record {
  movement_type = sale;
  quantity = pos 4000;
  unit_cost = none;
  reason = none;
  reference = none;
}

run_movement-IsWatched_example :
    Ensures
      (IsWatched strokes (requested 1 sold none) pantry)
      (run_movement strokes 1 sold none 5 10 pantry)
run_movement-IsWatched_example =
    run_movement-IsWatched strokes strokes_injective 1 sold none 5 10 pantry

abbrev restock : StockPurchaseCreate
restock = record {
  expense = record {
    expense_ref = none;
    customer_id = none;
    category = "stock";
    amount = pos 240000;
    vault = mpesa;
    mpesa_trans_id = none;
    invoice_id = none;
  };
  product_id = 1;
  quantity = pos 2000;
  unit_cost = pos 120;
}

create_stock_purchase-IsPurchased_example :
    Outcome
      (IsPurchased strokes restock 77 10 store)
      store
      (create_stock_purchase strokes restock 77 (some 9) 10 store)
create_stock_purchase-IsPurchased_example =
    create_stock_purchase-IsPurchased strokes restock 77 (some 9) 10 store

sale_returns : (r : StockMovement × Shop) × (run_movement strokes 1 sold none 5 10 pantry ≡ ok r)
unfolding run_movement record_movement apply_movement move_level get_or_create_level find_row ◌+ℤ◌
    ◌-ℤ◌
sale_returns = (_, refl)

StoreReach-IsFresh_example :
    IsFresh strokes
      (create_stock_purchase strokes restock 77
        (some 9)
        11
        (record store { shop = sale_returns.0.1 })).1.shop
StoreReach-IsFresh_example =
    StoreReach-IsFresh strokes strokes_injective
      (StoreReach.next
        (StoreReach.next (StoreReach.start store)
          (StoreStep.moved 1 sold none 5 10 store sale_returns.0 sale_returns.1))
        (StoreStep.bought restock 77 (some 9) 11 (record store { shop = sale_returns.0.1 })))
      pantry-IsFresh
