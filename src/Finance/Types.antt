-- ===== src/Finance/Types.antt =====
-- The enumerations of the finance domain: backend/src/domains/finance/types.py and models.py.
use finguard.Base.{ℕ, ◌≡◌, Bool, arith, ◌==◌}

pub data VaultType : Type 0 where
  mpesa cash bank : VaultType

pub data InvoiceEventType : Type 0 where
  invoice_issued payment_applied credit_note_applied invoice_cancelled : InvoiceEventType

pub data InvoiceStatus : Type 0 where
  draft sent paid partially_paid overdue cancelled : InvoiceStatus

-- `a == b` on the members of an enumeration, by their position in it
abbrev vault_index : VaultType → ℕ
vault_index mpesa = 0
vault_index cash = 1
vault_index bank = 2

abbrev pub same_vault : VaultType → VaultType → Bool
same_vault a b = vault_index a == vault_index b

abbrev status_index : InvoiceStatus → ℕ
status_index draft = 0
status_index sent = 1
status_index paid = 2
status_index partially_paid = 3
status_index overdue = 4
status_index cancelled = 5

abbrev pub same_status : InvoiceStatus → InvoiceStatus → Bool
same_status a b = status_index a == status_index b

pub same_vault-eq : (a b : VaultType) → same_vault a b ≡ Bool.true → a ≡ b
same_vault-eq a b h = ground arith

pub same_status-eq : (a b : InvoiceStatus) → same_status a b ≡ Bool.true → a ≡ b
same_status-eq a b h = ground arith
