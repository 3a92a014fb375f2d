-- ===== src/Invoices/Worker.antt =====
-- src/workers/invoice.processor.ts and invoice-retry-cron.service.ts.
--
-- The drawing of a document and the texts of a mail are left out: a stored document holds the invoice
-- that it shows. `MailOutcome` is what becomes of an attempt to mail.
use notaryday_backend.Common.{
  ℕ, ◌+◌, ◌-◌, String, Bool, false, ◌&&◌, ◌==◌, not, Option, none, some, List, [], ◌∷◌, is_some,
  is_empty, find_first, update_where, select, any, if◌then◌else◌, ltb, leb,
}
use notaryday_backend.Schema.{
  Invoice, StoredPdf, M, ◌>>=◌, ◌>>◌, pure, throw, when, if_some, get_store, emit, ok, server_error,
  notify, invoice_email, invoice_mail, track,
}
use notaryday_backend.Tables.{update_invoice, get_notification_config}

abbrev pub has_key : ℕ → ℕ → StoredPdf → Bool
has_key year seq d = d.number_year == year && d.number_seq == seq

-- `PutObjectCommand`: the object of the key is replaced.
unfoldable pub put_object : Invoice → M (Unit {0})
unfolding select
put_object invoice s = (
  ok tt,
  record s {
    pdfs =
        record {
          number_year = invoice.number_year;
          number_seq = invoice.number_seq;
          shows = invoice;
        }
        ∷ select (λ d. not (has_key invoice.number_year invoice.number_seq d)) s.pdfs;
  },
)

-- `handleGeneratePdf`; `uploaded` tells whether the drawing and the upload succeed, `for_edit` whether
-- the reason is an edit.
unfoldable pub handle_generate_pdf : ℕ → Bool → Bool → ℕ → ℕ → M (Unit {0})
unfolding find_first put_object update_invoice
handle_generate_pdf now uploaded for_edit invoice_id user_id = do
  s ← get_store
  if_some (find_first (λ i. i.id == invoice_id) s.invoices)
      (λ invoice. do
        when uploaded (do
          put_object invoice
          update_invoice invoice_id (λ i. record i {
            pdf_url = some (record {
              number_year = invoice.number_year;
              number_seq = invoice.number_seq;
              version = now;
            });
            pdf_pending = false;
          }))
        when (not for_edit) (emit (notify "INVOICE_SENT" user_id)))
      (pure tt)

pub data MailOutcome : Type 0 where
  delivered : MailOutcome
  refused : String → MailOutcome
  -- The worker stops after its claim.
  stopped : MailOutcome

abbrev pub is_attempt : ℕ → Bool
is_attempt attempt = leb 1 attempt && leb attempt 3

-- The rows that the claim of an attempt changes.
abbrev pub is_claimable : ℕ → ℕ → Invoice → Bool
is_claimable id attempt i =
    i.id == id
    && (not (is_some i.deleted_at) && (i.email_pending && i.email_attempts == attempt - 1))

abbrev pub claimed : ℕ → ℕ → Invoice → Invoice
claimed now attempt i = record i { email_attempts = attempt; email_last_attempt_at = some now }

abbrev claim_rows : ℕ → ℕ → ℕ → M (Unit {0})
claim_rows now id attempt s = (
  ok tt,
  record s { invoices = update_where (is_claimable id attempt) (claimed now attempt) s.invoices },
)

-- The `catch` of `handleSendEmail`.
abbrev pub failed : ℕ → ℕ → String → Invoice → Invoice
failed now attempt message i = record i {
  email_pending = ltb attempt 3;
  email_last_error = some message;
  email_failed_at = if attempt == 3 then some now else none;
}

abbrev pub mailed : ℕ → Invoice → Invoice
mailed now i = record i {
  email_pending = false;
  sent_at = some now;
  email_last_error = none;
  email_failed_at = none;
}

-- The client wants no mails.
abbrev pub unwanted : Invoice → Invoice
unwanted i = record i { email_pending = false; email_last_error = none; email_failed_at = none }

unfoldable pub fail_attempt : ℕ → ℕ → ℕ → String → M (Unit {0})
unfolding update_invoice
fail_attempt now id attempt message = do
  update_invoice id (failed now attempt message)
  throw (server_error message)

unfoldable pub mail_invoice : ℕ → MailOutcome → ℕ → ℕ → Invoice → M (Unit {0})
unfolding update_invoice fail_attempt
mail_invoice now delivered id attempt invoice = do
  emit (invoice_mail id invoice.recipient_email)
  emit (track "invoice_sent" invoice.user_id)
  update_invoice id (mailed now)
mail_invoice now (refused message) id attempt invoice = fail_attempt now id attempt message
mail_invoice now stopped id attempt invoice = throw (server_error "stopped")

-- The `try` of `handleSendEmail`, for the row that was found.
unfoldable pub attempt_mail : ℕ → MailOutcome → ℕ → ℕ → Invoice → M (Unit {0})
unfolding update_invoice mail_invoice fail_attempt
attempt_mail now outcome id attempt invoice =
    if is_empty invoice.recipient_email
    then fail_attempt now id attempt "Invoice or recipient email not found"
    else do
      config ← get_notification_config invoice.user_id
      if config.client_invoice
          then mail_invoice now outcome id attempt invoice
          else update_invoice id unwanted

unfoldable pub handle_send_email : ℕ → MailOutcome → ℕ → ℕ → M (Unit {0})
unfolding find_first any update_where attempt_mail fail_attempt
handle_send_email now outcome id attempt = do
  s ← get_store
  if not (is_attempt attempt && any (is_claimable id attempt) s.invoices) then pure tt else do
    claim_rows now id attempt
    t ← get_store
    if_some (find_first (λ i. i.id == id) t.invoices) (attempt_mail now outcome id attempt)
        (fail_attempt now id attempt "Invoice or recipient email not found")

abbrev pub at_most : ℕ → Option ℕ → Bool
at_most t none = false
at_most t (some u) = leb u t

-- The invoices of `retryPendingEmails`.
abbrev pub is_retried : ℕ → Invoice → Bool
is_retried now i =
    not (is_some i.deleted_at)
    && (i.email_pending
        && ((leb 1 i.email_attempts && ltb i.email_attempts 3)
            && (is_some i.email_last_error && at_most (now - 900000) i.email_last_attempt_at)))

unfoldable pub queue_retries : List Invoice → M (Unit {0})
queue_retries [] = pure tt
queue_retries (i ∷ is) =
    emit (invoice_email i.id i.user_id (i.email_attempts + 1)) >> queue_retries is

unfoldable pub retry_pending_emails : ℕ → M (Unit {0})
unfolding queue_retries select
retry_pending_emails now = do s ← get_store; queue_retries (select (is_retried now) s.invoices)
