-- ===== src/Invoices.antt =====
-- src/modules/invoices/invoices.service.ts.
--
-- `other_calls n` is what other requests write to the database between the moment that the n-th
-- attempt of `generate` reads the last number and its insert.
pub mod Numbers
pub mod Edits
pub mod Totals
pub mod Meeting
pub mod Issue
pub mod Sequence
pub mod Locks
pub mod Frame
pub mod Worker
pub mod Attempts
pub mod Mails
pub mod Retries
pub mod Stranded
pub mod Documents
use notaryday_backend.Common.{
  ℕ, zero, suc, ◌+◌, String, Bool, true, false, ◌&&◌, ◌||◌, ◌==◌, not, Option, none, some, List, [],
  ◌∷◌, get_or, or_else, is_some, or_text, find_first, any, if◌then◌else◌,
}
use notaryday_backend.Schema.{
  Job, Invoice, Store, M, found, ◌>>=◌, ◌>>◌, pure, throw, when, if_some, get_store, fresh_id, emit,
  ok, bad_request, conflict_error, generate_pdf, complete, eq_status,
}
use notaryday_backend.Tables.{live_job, update_invoice}
use notaryday_backend.Invoices.Numbers.{next_seq}

-- `findUnique({ where: { job_id } })`: deleted rows count.
abbrev pub invoice_for : ℕ → Store → Option Invoice
invoice_for job_id s = find_first (λ i. i.job_id == job_id) s.invoices

-- `findWithJob(id)`
abbrev pub find_with_job : ℕ → M (Option Invoice)
find_with_job id = do s ← get_store; pure (find_first (λ i. i.id == id) s.invoices)

-- `pdf_pending: true`, and the message for the worker.
abbrev pub request_pdf : ℕ → ℕ → M (Unit {0})
request_pdf id user_id = do
  update_invoice id (λ i. record i { pdf_pending = true })
  emit (generate_pdf id user_id)

unfoldable pub refresh_existing : Invoice → ℕ → String → Option String → M (Option Invoice)
unfolding update_invoice find_first
refresh_existing existing user_id email name = do
  update_invoice existing.id (λ i. record i {
    recipient_email = or_text email existing.recipient_email;
    recipient_name = or_else name existing.recipient_name;
  })
  when (not (is_some existing.pdf_url) && not existing.pdf_pending)
      (request_pdf existing.id user_id)
  find_with_job existing.id

-- The unique indexes `job_id` and `(user_id, invoice_number)` of prisma/schema.prisma.
abbrev pub clashes : Invoice → Invoice → Bool
clashes new old =
    old.job_id == new.job_id
    || (old.user_id == new.user_id
        && (old.number_year == new.number_year && old.number_seq == new.number_seq))

-- `prisma.invoice.create`; false stands for the error P2002.
unfoldable pub create_invoice : Invoice → M Bool
unfolding any
create_invoice new s =
    if any (clashes new) s.invoices
    then (ok false, s)
    else (ok true, record s { invoices = new ∷ s.invoices })

-- The columns that `generate` writes, the others by their defaults.
abbrev pub new_invoice : ℕ → ℕ → Job → ℕ → ℕ → String → Option String → Invoice
new_invoice id user_id job year seq email name = record {
  id = id;
  user_id = user_id;
  job_id = job.id;
  number_year = year;
  number_seq = seq;
  recipient_email = email;
  recipient_name = name;
  subtotal = job.fee;
  travel_fee = get_or job.mileage_cost 0;
  total = job.fee + get_or job.mileage_cost 0;
  is_paid = false;
  paid_at = none;
  payment_method_used = none;
  sent_at = none;
  pdf_url = none;
  pdf_pending = false;
  email_pending = false;
  email_attempts = 0;
  email_last_attempt_at = none;
  email_last_error = none;
  email_failed_at = none;
  note_to_client = none;
  deleted_at = none;
}

abbrev pub recipient_email_of : Job → String
recipient_email_of job = get_or (or_else job.client_email job.platform_name) ""

abbrev pub recipient_name_of : Job → Option String
recipient_name_of job = or_else job.client_name job.platform_name

-- After an attempt: done, or another request has made this job's invoice, or try again.
unfoldable pub settle : M (Option Invoice) → ℕ → Job → ℕ × Bool → M (Option Invoice)
settle retry user_id job (id, true) = do request_pdf id user_id; find_with_job id
settle retry user_id job (id, false) = do
  s ← get_store
  if_some (invoice_for job.id s)
      (λ raced. refresh_existing raced user_id (recipient_email_of job) (recipient_name_of job))
      retry

module _ (year : ℕ) (other_calls : ℕ → Store → Store) where
  -- Read the last number, then insert: other requests may come between.
  unfoldable pub insert_attempt : ℕ → ℕ → Job → M (ℕ × Bool)
  unfolding next_seq create_invoice
  insert_attempt attempt_no user_id job = do
    s ← get_store
    let seq = next_seq user_id year s.invoices
    (λ s'. (ok tt, other_calls attempt_no s'))
    id ← fresh_id
    created ←
        create_invoice
          (new_invoice id user_id job year seq (recipient_email_of job) (recipient_name_of job))
    pure (id, created)

  -- The loop of `generate`: `rounds` attempts are left.
  unfoldable pub allocate : ℕ → ℕ → ℕ → Job → M (Option Invoice)
  allocate zero attempt_no user_id job =
      throw (conflict_error "Could not allocate a unique invoice number, please retry")
  allocate (suc rounds) attempt_no user_id job =
      insert_attempt attempt_no user_id job
      >>= settle (allocate rounds (suc attempt_no) user_id job) user_id job

  -- `generate`, once the job is found.
  unfoldable pub generate_for : ℕ → Job → M (Option Invoice)
  generate_for user_id job = do
    when (not (eq_status job.status complete))
        (throw (bad_request "Job must be complete to generate invoice"))
    s ← get_store
    if_some (invoice_for job.id s)
        (λ existing.
          refresh_existing existing user_id (recipient_email_of job) (recipient_name_of job))
        (allocate 5 1 user_id job)

  unfoldable pub generate : ℕ → ℕ → M (Option Invoice)
  unfolding find_first generate_for
  generate user_id job_id = do
    s ← get_store
    job ← found (find_first (live_job user_id job_id) s.jobs) "Job not found"
    generate_for user_id job
