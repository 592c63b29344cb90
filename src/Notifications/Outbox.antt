-- ===== src/Notifications/Outbox.antt =====
-- Enqueueing is idempotent, and reaches only those who may review.
pub mod Fanout
use mathlib.Core.Path.{subst}
use mathlib.Core.List.{Mem, append-nil, append_assoc}
use text.Mathlib.Text.{◌==◌ as str_eq}
use finguard.Base.{
  ℕ, ◌+◌, ◌≡◌, inl, inr, refl, sym, ap, ◌∙◌, Bool, true, false, ◌&&◌, Option, none, some, List, [],
  ◌∷◌, ◌++◌, String, arith, All, All-append, All-map, Bool-cases, length, length-append, if_elim,
}
use finguard.Base.Table.{select-All, All-Mem}
use finguard.Identity.{User, list_active_by_roles}
use finguard.Identity.Permissions.{Permission, roles_with_permission, has_permission}
use finguard.Identity.Permissions.Policy.{roles_with_permission-eq}
use finguard.Notifications.{
  Email, EmailContext, EmailKey, same_key, EmailOutbox, Mail, has_key, pending_row, insert_email,
  send_to, send_optional, suppressible, enqueue_email, is_opted_out,
}
use finguard.Notifications.Reviewers.{
  review_email, is_excluded, count_if, notify_each, notify_reviewers,
}

same_key_refl : (k : EmailKey) → same_key k k ≡ true
same_key_refl (EmailKey.invoice_sent a) = ground arith
same_key_refl (EmailKey.invoice_resent a u) = ground arith
same_key_refl (EmailKey.payment_receipt a) = ground arith
same_key_refl (EmailKey.payable_review a u) = ground arith
same_key_refl (EmailKey.proposal_review a u) = ground arith
same_key_refl (EmailKey.replayed k u) = ground (arith, same_key_refl k)
same_key_refl (EmailKey.resent k u) = ground (arith, same_key_refl k)

has_key-snoc :
    (k : EmailKey) (es : List EmailOutbox) (e : EmailOutbox)
    → same_key e.idempotency_key k ≡ true
    → has_key k (es ++ e ∷ []) ≡ true
unfolding has_key
has_key-snoc k [] e h = ground arith
has_key-snoc k (x ∷ es) e h = ground (arith, has_key-snoc k es e h)

insert_email-twice :
    (address : String) (email : Email) (mail : Mail)
    → insert_email address email (insert_email address email mail).1
      ≡ (false, (insert_email address email mail).1)
unfolding insert_email
insert_email-twice address email mail =
    let added : has_key email.idempotency_key (mail.outbox ++ pending_row address email ∷ [])
        ≡ true =
      has_key-snoc email.idempotency_key mail.outbox (pending_row address email)
        (same_key_refl email.idempotency_key) in
    elim (Bool-cases (has_key email.idempotency_key mail.outbox)) [
      | inl h ↦ rw (h, h) refl
      | inr h ↦ rw (h, added) refl
    ]

insert_email-opt_outs :
    (address : String) (email : Email) (mail : Mail)
    → (insert_email address email mail).1.opt_outs ≡ mail.opt_outs
unfolding insert_email
insert_email-opt_outs address email mail =
    if_elim (λ (r : Bool × Mail). r.1.opt_outs ≡ mail.opt_outs)
      (has_key email.idempotency_key mail.outbox) (false, mail)
      (true, record mail { outbox = mail.outbox ++ pending_row address email ∷ [] }) refl refl

send_to-twice :
    (address : String) (email : Email) (mail : Mail)
    → send_to address email (send_to address email mail).1 ≡ (false, (send_to address email mail).1)
unfolding send_to
send_to-twice address email mail =
    let kept = insert_email-opt_outs address email mail in
    let twice = rw kept at (insert_email-twice address email mail) in
    elim (Bool-cases (str_eq address "")) [
      | inl h ↦ rw h refl
      | inr h ↦
          elim (Bool-cases
            (suppressible email.category && is_opted_out address email.category mail.opt_outs)) [
              | inl k ↦ rw (h, k, k) refl
              | inr k ↦ rw (h, k, kept, k) twice
            ]
    ]

send_optional-twice :
    (o : Option String) (email : Email) (mail : Mail)
    → send_optional o email (send_optional o email mail).1 ≡ (false, (send_optional o email mail).1)
unfolding send_optional
send_optional-twice none email mail = refl
send_optional-twice (some address) email mail = send_to-twice address email mail

-- Enqueueing the same email a second time reports that nothing was queued and leaves the mail as
-- it is.
pub enqueue_email-twice :
    (email : Email) (mail : Mail)
    → enqueue_email email (enqueue_email email mail).1 ≡ (false, (enqueue_email email mail).1)
unfolding enqueue_email
enqueue_email-twice email mail = send_optional-twice email.to_email email mail

-- The mail has grown by `count` rows, each with `P`.
pub record Extends (P : EmailOutbox → Type 0) (n : ℕ) (mail mail' : Mail) : Type 0 where
  pub rows : List EmailOutbox
  pub is_rows : mail'.outbox ≡ mail.outbox ++ rows
  pub all : All P rows
  pub count : length rows ≡ n

pub unchanged : (P : EmailOutbox → Type 0) (mail : Mail) → Extends P 0 mail mail
unchanged P mail = record {
  rows = [];
  is_rows = sym (append-nil mail.outbox);
  all = tt;
  count = refl;
}

pub extends-again :
    (P : EmailOutbox → Type 0) (n k : ℕ) (a b c : Mail)
    → Extends P n a b
    → Extends P k b c
    → Extends P (n + k) a c
extends-again P n k a b c f g = record {
  rows = f.rows ++ g.rows;
  is_rows = g.is_rows ∙ ap (λ es. es ++ g.rows) f.is_rows ∙ append_assoc a.outbox f.rows g.rows;
  all = All-append P f.rows g.rows f.all g.all;
  count = omega (arith, length-append f.rows g.rows, f.count, g.count);
}

pub extends-imp :
    (P Q : EmailOutbox → Type 0) (n : ℕ) (a b : Mail)
    → ((e : EmailOutbox) → P e → Q e)
    → Extends P n a b
    → Extends Q n a b
extends-imp P Q n a b i f = record {
  rows = f.rows;
  is_rows = f.is_rows;
  all = All-map P Q f.rows i f.all;
  count = f.count;
}

-- The row of an email.
abbrev pub IsRowOf : Email → EmailOutbox → Type 0
IsRowOf email e = (email.to_email ≡ some e.to_email) × (e.idempotency_key ≡ email.idempotency_key)

abbrev Grows : Email → Mail → Bool × Mail → Type 0
Grows email mail r = Extends (IsRowOf email) (count_if r.0 0) mail r.1

send_to-Grows :
    (address : String) (email : Email) (mail : Mail)
    → email.to_email ≡ some address
    → Grows email mail (send_to address email mail)
unfolding send_to insert_email
send_to-Grows address email mail h =
    let same = unchanged (IsRowOf email) mail in
    let row : EmailOutbox = pending_row address email in
    if_elim (Grows email mail) (str_eq address "") _ _ same (
      if_elim (Grows email mail)
        (suppressible email.category && is_opted_out address email.category mail.opt_outs) _ _ same
        (if_elim (Grows email mail) (has_key email.idempotency_key mail.outbox) _ _ same
          (record { rows = row ∷ []; is_rows = refl; all = ((h, refl), tt); count = refl })))

send_optional-Grows :
    (o : Option String) (email : Email) (mail : Mail)
    → email.to_email ≡ o
    → Grows email mail (send_optional o email mail)
unfolding send_optional
send_optional-Grows none email mail h = unchanged (IsRowOf email) mail
send_optional-Grows (some address) email mail h = send_to-Grows address email mail h

pub enqueue_email-Grows :
    (email : Email) (mail : Mail) → Grows email mail (enqueue_email email mail)
unfolding enqueue_email
enqueue_email-Grows email mail = send_optional-Grows email.to_email email mail refl
