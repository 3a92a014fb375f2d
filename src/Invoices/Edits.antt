-- ===== src/Invoices/Edits.antt =====
-- src/modules/invoices/invoices.service.ts: payment, delivery, edits and statistics.
use text.Mathlib.Text.{◌==◌ as str_eq}
use notaryday_backend.Common.{
  ℕ, ◌+◌, ◌*◌, ◌/◌, String, Bool, true, false, ◌&&◌, ◌||◌, ◌==◌, not, Option, none, some, List, [],
  ◌∷◌, get_or, or_else, is_some, is_empty, trim, has_char, find_first, select, if◌then◌else◌, ltb,
  eq_text,
}
use notaryday_backend.Schema.{
  Invoice, Store, M, found, ◌>>=◌, ◌>>◌, pure, throw, when, if_some, get_store, emit, bad_request,
  invoice_email, notify, push, Env,
}
use notaryday_backend.Tables.{live_invoice, update_invoice, update_job, get_notification_config}
use notaryday_backend.Profitability.{calculate_profitability}
use notaryday_backend.Invoices.{request_pdf, find_with_job}

unfoldable pub find_one : ℕ → ℕ → M Invoice
unfolding find_first
find_one user_id id = do
  s ← get_store
  found (find_first (live_invoice user_id id) s.invoices) "Invoice not found"

unfoldable pub mark_paid : Env → ℕ → ℕ → Option String → M (Option Invoice)
unfolding find_one update_invoice
mark_paid env user_id id payment_method = do
  invoice ← find_one user_id id
  when invoice.is_paid (throw (bad_request "Invoice already paid"))
  update_invoice id (λ i. record i {
    is_paid = true;
    paid_at = some env.now;
    payment_method_used = or_else payment_method i.payment_method_used;
  })
  updated ← find_with_job id
  config ← get_notification_config user_id
  when config.payment_received (do emit (notify "PAYMENT_RECEIVED" user_id); emit (push user_id))
  pure updated

-- `recipientEmail?.trim() || invoice.recipient_email?.trim()`
abbrev pub delivery_address : Option String → Invoice → String
delivery_address given invoice =
    let own = trim (get_or given "") in if is_empty own then trim invoice.recipient_email else own

unfoldable pub send : ℕ → ℕ → Option String → M Bool
unfolding find_one update_invoice
send user_id id given = do
  invoice ← find_one user_id id
  when
      (is_empty (delivery_address given invoice)
        || not (has_char b'@' (delivery_address given invoice)))
      (throw (bad_request "A valid recipient email is required to send the invoice"))
  update_invoice id (λ i. record i {
    recipient_email = delivery_address given invoice;
    email_pending = true;
    email_attempts = 0;
    email_last_attempt_at = none;
    email_last_error = none;
    email_failed_at = none;
  })
  emit (invoice_email id user_id 1)
  pure true

-- The argument of `syncDraftFromJob`.
pub record JobAmounts : Type 0 where
  pub fee : ℕ
  pub mileage_cost : ℕ
  pub client_name : Option String
  pub client_email : Option String

-- The comparison before the write.
abbrev pub in_sync : JobAmounts → Invoice → Bool
in_sync job i =
    i.subtotal == job.fee
    && (i.travel_fee == job.mileage_cost
        && (i.total == job.fee + job.mileage_cost
            && (eq_text i.recipient_name (or_else job.client_name i.recipient_name)
                && str_eq i.recipient_email (get_or job.client_email i.recipient_email))))

abbrev pub synced : JobAmounts → Invoice → Invoice
synced job i = record i {
  subtotal = job.fee;
  travel_fee = job.mileage_cost;
  total = job.fee + job.mileage_cost;
  recipient_name = or_else job.client_name i.recipient_name;
  recipient_email = get_or job.client_email i.recipient_email;
}

unfoldable pub sync_invoice : ℕ → JobAmounts → Invoice → M (Unit {0})
unfolding update_invoice
sync_invoice user_id job invoice =
    when (not (invoice.is_paid || in_sync job invoice))
      (do update_invoice invoice.id (synced job); request_pdf invoice.id user_id)

unfoldable pub sync_draft_from_job : ℕ → ℕ → JobAmounts → M (Unit {0})
unfolding find_first sync_invoice
sync_draft_from_job user_id job_id job = do
  s ← get_store
  if_some
      (find_first (λ i. i.job_id == job_id && (i.user_id == user_id && not (is_some i.deleted_at)))
        s.invoices)
      (sync_invoice user_id job) (pure tt)

-- `distanceMiles > 0 ? Math.round((distanceMiles / 30) * 60) : 0`, in hundredths of a mile.
abbrev pub estimated_drive_mins : ℕ → ℕ
estimated_drive_mins distance_miles = (distance_miles * 2 * 2 + 100) / 200

unfoldable pub sync_job_fee : ℕ → ℕ → M (Unit {0})
unfolding find_first update_job calculate_profitability
sync_job_fee job_id fee = do
  s ← get_store
  if_some (find_first (λ j. j.id == job_id && not (is_some j.deleted_at)) s.jobs)
      (λ job.
        let p = calculate_profitability (record {
          fee = fee;
          platform_fee = job.platform_fee;
          distance_miles = get_or job.mileage_miles 0;
          irs_rate_per_mile = job.irs_rate_snapshot;
          signing_duration_mins = job.signing_duration_mins;
          drive_time_mins = estimated_drive_mins (get_or job.mileage_miles 0);
          scanback_duration_mins = job.scanback_duration_mins;
        }) in
        when (not (job.fee == fee)) (
          update_job job_id (λ j. record j {
            fee = fee;
            net_earnings = some p.net_earnings;
            effective_hourly = some p.effective_hourly;
          })))
      (pure tt)

pub record UpdateInvoiceDto : Type 0 where
  pub recipient_name : Option String
  pub recipient_email : Option String
  pub final_fee : Option ℕ
  pub note_to_client : Option String

unfoldable pub update : ℕ → ℕ → UpdateInvoiceDto → M (Option Invoice)
unfolding find_one update_invoice sync_job_fee
update user_id id dto = do
  invoice ← find_one user_id id
  when (invoice.is_paid && is_some dto.final_fee)
      (throw (bad_request "Paid invoices cannot change the amount"))
  if_some dto.final_fee (sync_job_fee invoice.job_id) (pure tt)
  update_invoice invoice.id (λ i. record i {
    recipient_name = or_else dto.recipient_name i.recipient_name;
    recipient_email = get_or dto.recipient_email i.recipient_email;
    note_to_client = or_else dto.note_to_client i.note_to_client;
    subtotal = get_or dto.final_fee i.subtotal;
    travel_fee = elim dto.final_fee [ none ↦ i.travel_fee | some _ ↦ 0 ];
    total = get_or dto.final_fee i.total;
  })
  updated ← find_with_job invoice.id
  request_pdf invoice.id user_id
  pure updated

pub record Stats : Type 0 where
  pub billed : ℕ
  pub paid : ℕ
  pub outstanding : ℕ
  pub overdue : ℕ
  pub earned : ℕ
  pub travel_fees : ℕ

abbrev pub no_stats : Stats
no_stats = record {
  billed = 0;
  paid = 0;
  outstanding = 0;
  overdue = 0;
  earned = 0;
  travel_fees = 0;
}

-- `days > 30`, over milliseconds.
abbrev pub is_overdue : ℕ → Invoice → Bool
is_overdue now i =
    not i.is_paid && elim i.sent_at [ none ↦ false | some t ↦ ltb (30 * 86400000 + t) now ]

-- One round of the loop of `findStats`; `job_fee` is the fee of the linked job.
unfoldable pub count_row : ℕ → (Invoice → ℕ) → Stats → Invoice → Stats
count_row now job_fee st i = record {
  billed = st.billed + i.total;
  paid = st.paid + (if i.is_paid then i.total else 0);
  outstanding = st.outstanding + (if i.is_paid then 0 else i.total);
  overdue = st.overdue + (if is_overdue now i then i.total else 0);
  earned = st.earned + job_fee i;
  travel_fees = st.travel_fees + i.travel_fee;
}

unfoldable pub count_rows : ℕ → (Invoice → ℕ) → Stats → List Invoice → Stats
unfolding count_row
count_rows now job_fee st [] = st
count_rows now job_fee st (i ∷ is) = count_rows now job_fee (count_row now job_fee st i) is

-- The fee of the job that an invoice is for.
abbrev pub fee_of : Store → Invoice → ℕ
fee_of s i = elim (find_first (λ j. j.id == i.job_id) s.jobs) [ none ↦ 0 | some j ↦ j.fee ]

unfoldable pub find_stats : Env → ℕ → M Stats
unfolding count_rows select
find_stats env user_id = do
  s ← get_store
  pure (
      count_rows env.now (fee_of s) no_stats
        (select (λ i. i.user_id == user_id && not (is_some i.deleted_at)) s.invoices))
