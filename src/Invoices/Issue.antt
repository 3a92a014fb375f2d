-- ===== src/Invoices/Issue.antt =====
-- src/modules/invoices/invoices.service.ts: `generate` for a job that has no invoice yet.
use notaryday_backend.Common.{ℕ, ◌+◌, ◌<◌, ◌≡◌, true, false, none, List, get_or, or_else}
use notaryday_backend.Schema.{Job, Invoice, Store}
use notaryday_backend.Invoices.Numbers.{next_seq}
use notaryday_backend.Invoices.Sequence.{Numbered}

-- The invoice that a user gets for a job: a number after all of the year, the fee and the mileage of
-- the job, its contact, unpaid, unsent, and a document under way.
pub record IsIssued (year user_id : ℕ) (job : Job) (before : List Invoice) (i : Invoice)
    : Type 0 where
  pub owned : i.user_id ≡ user_id
  pub of_job : i.job_id ≡ job.id
  pub of_year : i.number_year ≡ year
  pub numbered : i.number_seq ≡ next_seq user_id year before
  pub after_all : Numbered user_id year (λ n. n < i.number_seq) before
  pub for_fee : i.subtotal ≡ job.fee
  pub for_mileage : i.travel_fee ≡ get_or job.mileage_cost 0
  pub for_both : i.total ≡ job.fee + get_or job.mileage_cost 0
  pub to_email : i.recipient_email ≡ get_or (or_else job.client_email job.platform_name) ""
  pub to_name : i.recipient_name ≡ or_else job.client_name job.platform_name
  pub unpaid : i.is_paid ≡ false
  pub unsent : i.sent_at ≡ none
  pub drawn : i.pdf_pending ≡ true

abbrev pub undisturbed : ℕ → Store → Store
undisturbed n s = s
