-- ===== src/Notifications.antt =====
-- The enqueue side of the email pipeline: backend/src/domains/notifications/service.py
-- (`enqueue_email`) and models.py. The subject and the display texts of a mail follow from its
-- template and its context; the context is kept, the texts are not modelled.
pub mod Reviewers
pub mod Outbox
pub mod Preferences
pub mod Admin
use text.Mathlib.Text.{◌==◌ as str_eq}
use finguard.Base.{
  ℕ, ◌+◌, ◌==◌, Bool, true, false, ◌&&◌, ◌||◌, Option, none, some, List, [], ◌∷◌, ◌++◌, String,
  if◌then◌else◌, ◌≡◌, refl, arith,
}
use finguard.Base.Int.{ℤ}
use finguard.Base.Text.{lower}

pub data EmailCategory : Type 0 where
  account receipt invoice approval reminder : EmailCategory

-- `SUPPRESSIBLE_CATEGORIES`
abbrev pub suppressible : EmailCategory → Bool
suppressible approval = true
suppressible reminder = true
suppressible category = false

abbrev category_index : EmailCategory → ℕ
category_index account = 0
category_index receipt = 1
category_index invoice = 2
category_index approval = 3
category_index reminder = 4

abbrev pub same_category : EmailCategory → EmailCategory → Bool
same_category a b = category_index a == category_index b

-- The idempotency keys that the services build: "invoice_sent:{id}", "receipt:{id}", …
pub data EmailKey : Type 0 where
  invoice_sent : ℕ → EmailKey
  invoice_resent : ℕ → ℕ → EmailKey
  payment_receipt : ℕ → EmailKey
  payable_review : ℕ → ℕ → EmailKey
  proposal_review : ℕ → ℕ → EmailKey
  replayed : EmailKey → ℕ → EmailKey
  resent : EmailKey → ℕ → EmailKey

abbrev pub same_key : EmailKey → EmailKey → Bool
same_key (invoice_sent a) (invoice_sent b) = a == b
same_key (invoice_resent a u) (invoice_resent b v) = a == b && u == v
same_key (payment_receipt a) (payment_receipt b) = a == b
same_key (payable_review a u) (payable_review b v) = a == b && u == v
same_key (proposal_review a u) (proposal_review b v) = a == b && u == v
same_key (replayed a u) (replayed b v) = same_key a b && u == v
same_key (resent a u) (resent b v) = same_key a b && u == v
same_key a b = false

-- The characters of a key: a uuid has 36.
unfoldable pub key_length : EmailKey → ℕ
key_length (invoice_sent a) = 13 + 36
key_length (invoice_resent a u) = 15 + 36 + 1 + 36
key_length (payment_receipt a) = 8 + 36
key_length (payable_review a u) = 15 + 36 + 1 + 36
key_length (proposal_review a u) = 16 + 36 + 1 + 36
key_length (replayed a u) = key_length a + 8 + 36
key_length (resent a u) = key_length a + 8 + 36

pub data EmailContext : Type 0 where
  invoice_issued : Option String → String → String → ℤ → ℤ → Option ℕ → EmailContext
  payment_received : Option String → String → ℤ → String → ℤ → String → EmailContext
  approval_needed : String → String → EmailContext

pub data EmailStatus : Type 0 where
  pending sent failed : EmailStatus

-- A row of `email_outbox`.
pub record EmailOutbox : Type 0 where
  pub to_email : String
  pub to_name : Option String
  pub context : EmailContext
  pub status : EmailStatus
  pub attempts : ℕ
  pub scheduled_for : Option ℕ
  pub idempotency_key : EmailKey

-- A row of `email_dead_letters`.
pub record EmailDeadLetter : Type 0 where
  pub row : EmailOutbox
  pub attempts : ℕ
  pub idempotency_key : EmailKey

pub record EmailOptOut : Type 0 where
  pub email : String
  pub category : EmailCategory

-- The tables of the pipeline.
pub record Mail : Type 0 where
  pub outbox : List EmailOutbox
  pub opt_outs : List EmailOptOut

pub record Email : Type 0 where
  pub to_email : Option String
  pub to_name : Option String
  pub context : EmailContext
  pub idempotency_key : EmailKey
  pub category : EmailCategory

-- `_is_opted_out`
unfoldable pub is_opted_out : String → EmailCategory → List EmailOptOut → Bool
is_opted_out email category [] = false
is_opted_out email category (o ∷ os) =
    str_eq o.email (lower email) && same_category o.category category
    || is_opted_out email category os

-- The unique index on `idempotency_key`.
unfoldable pub has_key : EmailKey → List EmailOutbox → Bool
has_key key [] = false
has_key key (e ∷ es) = same_key e.idempotency_key key || has_key key es

-- The row that `enqueue_email` inserts.
abbrev pub pending_row : String → Email → EmailOutbox
pending_row address email = record {
  to_email = address;
  to_name = email.to_name;
  context = email.context;
  status = EmailStatus.pending;
  attempts = 0;
  scheduled_for = none;
  idempotency_key = email.idempotency_key;
}

-- `INSERT … ON CONFLICT DO NOTHING RETURNING id`
unfoldable pub insert_email : String → Email → Mail → Bool × Mail
unfolding has_key
insert_email address email mail =
    if has_key email.idempotency_key mail.outbox
    then (false, mail)
    else (true, record mail { outbox = mail.outbox ++ pending_row address email ∷ [] })

unfoldable pub send_to : String → Email → Mail → Bool × Mail
unfolding insert_email is_opted_out
send_to address email mail =
    if str_eq address ""
    then (false, mail)
    else if suppressible email.category && is_opted_out address email.category mail.opt_outs
    then (false, mail)
    else insert_email address email mail

-- A missing recipient is a skip.
unfoldable pub send_optional : Option String → Email → Mail → Bool × Mail
unfolding send_to
send_optional none email mail = (false, mail)
send_optional (some address) email mail = send_to address email mail

-- `enqueue_email`
unfoldable pub enqueue_email : Email → Mail → Bool × Mail
unfolding send_optional
enqueue_email email mail = send_optional email.to_email email mail
