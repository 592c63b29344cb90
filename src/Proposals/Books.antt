-- ===== src/Proposals/Books.antt =====
-- An approved write keeps the books: the finance tables, the stock, and the table of proposals.
use finguard.Base.{ℕ, ◌≡◌, refl, Bool, true, not, ◌||◌, Option, none, some, String}
use finguard.Base.Int.{pos, ltb_ℤ}
use finguard.Core.Errors.{
  AppError, Result, ok, err, Ensures, Ensures-or_raise, Ensures-bind, Ensures-if, Ensures-premise,
}
use finguard.Core.Errors.AppError.{not_found}
use finguard.Inventory.Rows.{MovementType, MovementReason, is_adjustment, Product, Warehouse}
use finguard.Inventory.Movements.{Applied, adjust_stock, record_movement}
use finguard.Inventory.Stock.{IsConsistent}
use finguard.Inventory.Stock.Runs.{Keeps, adjust_stock-Keeps, record_movement-Keeps}
use finguard.Finance.Rows.{Payment}
use finguard.Finance.Db.{Db}
use finguard.Finance.Invoices.Invariant.{Inv}
use finguard.Finance.Invoices.Preserve.Settle.{apply_reconciled_payment-Inv}
use finguard.Reconciliation.Settle.{settlement_of, apply_confirmed_match}
use finguard.Proposals.StockTool.{
  StockArgs, ToolStatus, ToolResult, caught, adjustment_body, movement_body, call_service,
  gated_movement, typed_movement, propose_stock_movement, resolve_product, is_refused,
  resulting_on_hand, movement_type_of,
}
use finguard.Proposals.World.{ActionType, Payload, World}
use finguard.Proposals.Decide.{apply_action, stock_applied_as, match_applied_as}

-- The stock stays consistent.
abbrev KeepsStock : Warehouse → Result (ToolResult × Warehouse) → Type 0
KeepsStock w = Ensures (λ (r : ToolResult × Warehouse). IsConsistent w → IsConsistent r.1)

caught-KeepsStock :
    (w : Warehouse) (r : Result (Applied × Warehouse)) → Keeps w r → KeepsStock w (caught r w)
caught-KeepsStock w (ok r) h = h
caught-KeepsStock w (err AppError.unprocessable) h = λ c. c
caught-KeepsStock w (err AppError.app_error) h = tt
caught-KeepsStock w (err AppError.not_found) h = tt
caught-KeepsStock w (err AppError.unauthorized) h = tt
caught-KeepsStock w (err AppError.forbidden) h = tt
caught-KeepsStock w (err AppError.conflict) h = tt
caught-KeepsStock w (err AppError.too_many_requests) h = tt
caught-KeepsStock w (err AppError.database_error) h = tt

call_service-KeepsStock :
    (mtype : MovementType) (args : StockArgs) (product : Product)
    (reason : Option (Option MovementReason)) (actor : Option ℕ) (now : ℕ) (w : Warehouse)
    → KeepsStock w (call_service mtype args product reason actor now w)
unfolding call_service
call_service-KeepsStock mtype args product none actor now w = λ c. c
call_service-KeepsStock mtype args product (some reason) actor now w =
    Ensures-if (λ (r : ToolResult × Warehouse). IsConsistent w → IsConsistent r.1)
      (is_adjustment mtype) _ _
      (λ _.
        caught-KeepsStock w (adjust_stock product.id (adjustment_body args reason) actor now w)
          (adjust_stock-Keeps product.id (adjustment_body args reason) actor now w))
      (λ _.
        caught-KeepsStock w
          (record_movement product.id (movement_body mtype args reason) actor now w)
          (record_movement-Keeps product.id (movement_body mtype args reason) actor now w))

gated_movement-KeepsStock :
    (mtype : MovementType) (args : StockArgs) (product : Product) (apply : Bool) (actor : Option ℕ)
    (now : ℕ) (w : Warehouse)
    → KeepsStock w (gated_movement mtype args product apply actor now w)
unfolding gated_movement
gated_movement-KeepsStock mtype args product apply actor now w =
    let P = λ (r : ToolResult × Warehouse). IsConsistent w → IsConsistent r.1 in
    Ensures-if P (is_refused mtype args || ltb_ℤ (resulting_on_hand mtype args product w) (pos 0)) _
      _ (λ _ c. c)
      (λ _.
        Ensures-if P (not apply) _ _ (λ _ c. c)
          (λ _. call_service-KeepsStock mtype args product _ actor now w))

typed_movement-KeepsStock :
    (t : Option MovementType) (args : StockArgs) (product : Product) (apply : Bool)
    (actor : Option ℕ) (now : ℕ) (w : Warehouse)
    → KeepsStock w (typed_movement t args product apply actor now w)
typed_movement-KeepsStock none args product apply actor now w = λ c. c
typed_movement-KeepsStock (some mtype) args product apply actor now w =
    gated_movement-KeepsStock mtype args product apply actor now w

propose_stock_movement-KeepsStock :
    (parse_uuid : String → Option ℕ) (args : StockArgs) (apply : Bool) (actor : Option ℕ) (now : ℕ)
    (w : Warehouse)
    → KeepsStock w (propose_stock_movement parse_uuid args apply actor now w)
unfolding propose_stock_movement
propose_stock_movement-KeepsStock parse_uuid args apply actor now w =
    Ensures-or_raise (λ (r : ToolResult × Warehouse). IsConsistent w → IsConsistent r.1)
      (resolve_product parse_uuid args.product_ref w) not_found
      (λ product.
        typed_movement (movement_type_of args.movement_type) args product apply actor now w)
      (λ product _.
        typed_movement-KeepsStock (movement_type_of args.movement_type) args product apply actor now
          w)

-- What an action leaves alone, and what it keeps.
pub record Keeping (locked : Bool) (w w' : World) : Type 0 where
  pub proposals : w'.proposals ≡ w.proposals
  pub books : Inv locked w.db → Inv locked w'.db
  pub stock : IsConsistent w.warehouse → IsConsistent w'.warehouse

stock_applied-Keeping :
    (locked : Bool) (w : World) (r : ToolResult × Warehouse) (s : ToolStatus)
    → (IsConsistent w.warehouse → IsConsistent r.1)
    → Ensures (λ x. Keeping locked w x.1) (stock_applied_as s r w)
stock_applied-Keeping locked w r ToolStatus.rejected h = tt
stock_applied-Keeping locked w r ToolStatus.proposed h = tt
stock_applied-Keeping locked w r ToolStatus.applied h = record {
  proposals = refl;
  books = λ b. b;
  stock = h;
}

match_applied-Keeping :
    (locked : Bool) (w : World) (db : Db) (o : Option Payment)
    → (Inv locked w.db → Inv locked db)
    → Ensures (λ x. Keeping locked w x.1) (match_applied_as o db w)
match_applied-Keeping locked w db none h = tt
match_applied-Keeping locked w db (some p) h = record {
  proposals = refl;
  books = h;
  stock = λ c. c;
}

pub apply_action-Keeping :
    (locked : Bool) (parse_uuid : String → Option ℕ) (action : ActionType) (payload : Payload)
    (user now payment_id : ℕ) (w : World)
    → Ensures
        (λ x. Keeping locked w x.1)
        (apply_action parse_uuid action payload user now payment_id w)
unfolding apply_action apply_confirmed_match
apply_action-Keeping locked parse_uuid ActionType.stock_adjustment (Payload.stock args) user now
      payment_id w =
    Ensures-bind (λ x. Keeping locked w x.1)
      (λ (r : ToolResult × Warehouse). IsConsistent w.warehouse → IsConsistent r.1)
      (propose_stock_movement parse_uuid args true (some user) now w.warehouse)
      (λ r. stock_applied_as r.0.status r w)
      (propose_stock_movement-KeepsStock parse_uuid args true (some user) now w.warehouse)
      (λ r h. stock_applied-Keeping locked w r r.0.status h)
apply_action-Keeping locked parse_uuid ActionType.reconciliation_match
      (Payload.reconciliation m occurred_at) user now payment_id w =
    let settled = apply_confirmed_match m occurred_at payment_id w.db in
    Ensures-bind (λ x. Keeping locked w x.1)
      (λ (r : Option Payment × Db). Inv locked w.db → Inv locked r.1) settled
      (λ r. match_applied_as r.0 r.1 w)
      (Ensures-premise (Inv locked w.db) (λ (r : Option Payment × Db). Inv locked r.1) settled
        (apply_reconciled_payment-Inv locked (settlement_of m.source m occurred_at) payment_id
          w.db))
      (λ r h. match_applied-Keeping locked w r.1 r.0 h)
apply_action-Keeping locked parse_uuid (ActionType.other s) payload user now payment_id w = tt
apply_action-Keeping locked parse_uuid ActionType.stock_adjustment (Payload.reconciliation m t) user
      now payment_id w =
    tt
apply_action-Keeping locked parse_uuid ActionType.reconciliation_match (Payload.stock a) user now
      payment_id w =
    tt
