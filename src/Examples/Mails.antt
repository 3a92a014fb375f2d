-- ===== src/Examples/Mails.antt =====
-- Runs of the worker of the invoices (src/workers/invoice.processor.ts).
use mathlib.Core.Bool.{false≢true}
use notaryday_backend.Common.{
  ℕ, ◌+◌, ◌*◌, ◌≤◌, find_first, trim, has_char, ◌≡◌, refl, true, false, none, some, List, [], ◌∷◌,
  any, count,
}
use notaryday_backend.Schema.{Invoice, Store}
use notaryday_backend.Invoices.Edits.{send, find_one}
use notaryday_backend.Invoices.Worker.{
  delivered, refused, MailOutcome, stopped, claimed, handle_send_email, handle_generate_pdf,
}
use notaryday_backend.Invoices.Mails.{
  is_mail_of, one_if, is_open, WorkerCall, a_mail, a_retry, a_pdf, run_workers, mailed_at_most_once,
}
use notaryday_backend.Invoices.Attempts.{RowIs}
use notaryday_backend.Invoices.Retries.{after_send, three_attempts, attempts_end}
use notaryday_backend.Invoices.Stranded.{is_mailing_of, run_retries, stopped_never_retried}
use notaryday_backend.Invoices.Documents.{link_of, stored, filed, served, document_of_two}
use notaryday_backend.Examples.{invoice, rows}

-- The invoice is sent.
abbrev sent_rows : Store
sent_rows = (send 1 9 none rows).1

-- Two jobs for one attempt, with a run of the cron job and a document between them.
abbrev calls : List WorkerCall
calls =
    a_mail 1000000 delivered 9 1
    ∷ a_retry 2000000
    ∷ a_pdf 2100000 true false 9 1
    ∷ a_mail 2200000 delivered 9 1
    ∷ []

mailed_at_most_once_example :
    count (is_mail_of 9) (run_workers calls sent_rows).outbox
    ≤ count (is_mail_of 9) sent_rows.outbox + one_if (any (is_open 9) sent_rows.invoices)
mailed_at_most_once_example = mailed_at_most_once 9 calls sent_rows

abbrev times : ℕ → ℕ
times n = n * 1000000

abbrev refusals : ℕ → MailOutcome
refusals _ = refused "421"

attempts_end_example :
    (j : Invoice) × RowIs 9 j (three_attempts 9 times refusals sent_rows).invoices
    × (j.email_pending ≡ false)
unfolding find_first send find_one trim has_char
attempts_end_example =
    attempts_end 1 9 none times refusals invoice rows (refl, ((λ _. refl), tt)) refl (λ _. refl)

abbrev crashed_rows : Store
crashed_rows = (handle_send_email 1000000 stopped 9 1 sent_rows).1

stopped_never_retried_example :
    RowIs 9
      (claimed 1000000 1 (after_send none invoice))
      (run_retries (2000000 ∷ 9000000 ∷ []) crashed_rows).invoices
    × (count (is_mailing_of 9) (run_retries (2000000 ∷ 9000000 ∷ []) crashed_rows).outbox
        ≡ count (is_mailing_of 9) crashed_rows.outbox)
unfolding find_first send find_one trim has_char
stopped_never_retried_example =
    stopped_never_retried 1 9 1000000 none (2000000 ∷ 9000000 ∷ []) invoice rows
      (refl, ((λ _. refl), tt)) refl refl

-- The invoice of another user, with the same number.
abbrev foreign : Invoice
foreign = record invoice { id = 10; user_id = 2; job_id = 6 }

abbrev two_users : Store
two_users = record rows { invoices = invoice ∷ foreign ∷ [] }

document_of_two_example :
    RowIs 9
      (filed 5 invoice)
      (handle_generate_pdf 6 true false 10 2
        (handle_generate_pdf 5 true false 9 1 two_users).1).1.invoices
    × (served
          (link_of 5 invoice)
          (handle_generate_pdf 6 true false 10 2
            (handle_generate_pdf 5 true false 9 1 two_users).1).1
        ≡ some (stored foreign))
unfolding find_first
document_of_two_example =
    document_of_two 5 6 false false 9 10 1 2 invoice foreign two_users
      (refl, ((λ _. refl), ((λ e. absurd (false≢true e)), tt)))
      (refl, ((λ e. absurd (false≢true e)), ((λ _. refl), tt))) refl
