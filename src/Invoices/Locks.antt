-- ===== src/Invoices/Locks.antt =====
-- src/modules/invoices/invoices.service.ts: what a paid invoice keeps.
use notaryday_backend.Common.{
  ℕ, ◌≡◌, refl, true, false, ◌==◌, is_some, Option, find_first, arith, none, some, find_first_sound,
  find_first-update_where_of, update_where, String, or_else, get_or, ap, ◌∙◌, Option-cases,
  Bool-cases, subst, sym, inl, inr,
}
use notaryday_backend.Schema.{Invoice, Store, Env, err, bad_request}
use notaryday_backend.Tables.{live_invoice, update_invoice, get_notification_config, get_settings}
use notaryday_backend.Invoices.Edits.{find_one, mark_paid, UpdateInvoiceDto, update}

-- An invoice stays the same in its payment and its amounts.
abbrev pub SameAmounts : Invoice → Invoice → Type 0
SameAmounts old new =
    (new.is_paid ≡ old.is_paid)
    × (new.subtotal ≡ old.subtotal)
    × (new.travel_fee ≡ old.travel_fee)
    × (new.total ≡ old.total)

-- An edit of everything but the amount.
abbrev pub details : Option String → Option String → Option String → UpdateInvoiceDto
details name email text = record {
  recipient_name = name;
  recipient_email = email;
  final_fee = none;
  note_to_client = text;
}

abbrev with_details : Option String → Option String → Option String → Invoice → Invoice
with_details name email text r = record r {
  recipient_name = or_else name r.recipient_name;
  recipient_email = get_or email r.recipient_email;
  note_to_client = or_else text r.note_to_client;
}

module _ (user_id id : ℕ) (s : Store) {i : Invoice}
    (here : find_first (live_invoice user_id id) s.invoices ≡ some i) where
  mark_paid_row :
      (env : Env) (method : Option String)
      → i.is_paid ≡ false
      → (mark_paid env user_id id method s).1.invoices
        ≡ update_where
            (λ r. r.id == id)
            (λ r. record r {
              is_paid = true;
              paid_at = some env.now;
              payment_method_used = or_else method r.payment_method_used;
            })
            s.invoices
  unfolding mark_paid find_one update_invoice get_notification_config get_settings
  mark_paid_row env method unpaid = ground arith

  mark_paid_refused :
      (env : Env) (method : Option String)
      → i.is_paid ≡ true
      → mark_paid env user_id id method s ≡ (err (bad_request "Invoice already paid"), s)
  unfolding mark_paid find_one
  mark_paid_refused env method paid = ground arith

  paid_row :
      (env : Env) (method : Option String)
      → i.is_paid ≡ false
      → find_first (live_invoice user_id id) (mark_paid env user_id id method s).1.invoices
        ≡ some (record i {
          is_paid = true;
          paid_at = some env.now;
          payment_method_used = or_else method i.payment_method_used;
        })
  paid_row env method unpaid = rw (mark_paid_row env method unpaid) (
      find_first-update_where_of (λ r. r.id == id) (live_invoice user_id id) _ s.invoices
        (λ a h. ground arith) (λ a. refl) here)

  details_row :
      (name email note : Option String)
      → (update user_id id (details name email note) s).1.invoices
        ≡ update_where
            (λ r. r.id == i.id)
            (λ r. record r { pdf_pending = true })
            (update_where (λ r. r.id == i.id) (with_details name email note) s.invoices)
  unfolding update find_one update_invoice
  details_row name email text = elim (Bool-cases i.is_paid) [
    | inl e ↦ rw (here, e) refl
    | inr e ↦ rw (here, e) refl
  ]

  details_found :
      (name email note : Option String)
      → find_first
          (live_invoice user_id id)
          (update user_id id (details name email note) s).1.invoices
        ≡ some (record (with_details name email note i) { pdf_pending = true })
  details_found name email text =
      let own = find_first_sound (live_invoice user_id id) s.invoices here in
      rw (details_row name email text) (
        find_first-update_where_of (λ r. r.id == i.id) (live_invoice user_id id) _ _
          (λ a h. ground (arith, own)) (λ a. refl)
          (find_first-update_where_of (λ r. r.id == i.id) (live_invoice user_id id) _ s.invoices
            (λ a h. ground (arith, own)) (λ a. refl) here))

  update_refused :
      (dto : UpdateInvoiceDto)
      → i.is_paid ≡ true
      → is_some dto.final_fee ≡ true
      → update user_id id dto s ≡ (err (bad_request "Paid invoices cannot change the amount"), s)
  unfolding update find_one
  update_refused dto paid e = ground arith

  -- An edit of a paid invoice, accepted or refused, leaves it in the table with the same payment and
  -- the same amounts.
  pub update_paid :
      (dto : UpdateInvoiceDto)
      → i.is_paid ≡ true
      → (i' : Invoice) × (find_first (live_invoice user_id id) (update user_id id dto s).1.invoices
          ≡ some i')
        × SameAmounts i i'
  update_paid dto paid = elim (Option-cases dto.final_fee) [
    | inl e ↦ (
      record (with_details dto.recipient_name dto.recipient_email dto.note_to_client i) {
        pdf_pending = true;
      },
      subst
          (λ o.
            find_first (live_invoice user_id id)
              (update user_id id (record dto { final_fee = o }) s).1.invoices
            ≡ some
                (record (with_details dto.recipient_name dto.recipient_email dto.note_to_client i) {
                  pdf_pending = true;
                }))
          (sym e) (details_found dto.recipient_name dto.recipient_email dto.note_to_client),
      (refl, refl, refl, refl),
    )
    | inr (fee, e) ↦ (
      i,
      ap (λ r. find_first (live_invoice user_id id) r.1.invoices)
            (update_refused dto paid (ap is_some e))
          ∙ here,
      (refl, refl, refl, refl),
    )
  ]

-- Marking an open invoice as paid succeeds, stamps it with the time and keeps its amounts; marking
-- it again, at any time and with any method, is refused and changes nothing.
pub mark_paid_once :
    (user_id id : ℕ) (s : Store) {i : Invoice}
    (here : find_first (live_invoice user_id id) s.invoices ≡ some i) (env env' : Env)
    (method method' : Option String)
    → i.is_paid ≡ false
    → (find_first (live_invoice user_id id) (mark_paid env user_id id method s).1.invoices
        ≡ some (record i {
          is_paid = true;
          paid_at = some env.now;
          payment_method_used = or_else method i.payment_method_used;
        }))
      × (mark_paid env' user_id id method' (mark_paid env user_id id method s).1
          ≡ (err (bad_request "Invoice already paid"), (mark_paid env user_id id method s).1))
mark_paid_once user_id id s here env env' method method' unpaid = (
  paid_row user_id id s here env method unpaid,
  mark_paid_refused user_id id (mark_paid env user_id id method s).1
      (paid_row user_id id s here env method unpaid) env' method' refl,
)
