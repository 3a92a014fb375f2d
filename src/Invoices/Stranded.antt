-- ===== src/Invoices/Stranded.antt =====
-- src/workers/invoice-retry-cron.service.ts: a job that ends without an answer is not queued again.
use notaryday_backend.Common.{
  ℕ, ◌+◌, ◌≡◌, refl, Bool, true, false, ◌==◌, Option, none, List, [], ◌∷◌, ◌++◌, String, is_some,
  All, Bool-cases, inl, inr, arith, count, count-append, select, ◌∙◌, ap,
}
use notaryday_backend.Schema.{Invoice, Store, ok, Effect, invoice_email}
use notaryday_backend.Invoices.Edits.{send}
use notaryday_backend.Invoices.Worker.{
  stopped, is_claimable, claimed, handle_send_email, is_retried, queue_retries,
  retry_pending_emails,
}
use notaryday_backend.Invoices.Attempts.{RowIs, row_id, handle_send_email-RowIs}
use notaryday_backend.Invoices.Mails.{wants_mails}
use notaryday_backend.Invoices.Retries.{after_send, send-RowIs}

-- A job to mail the invoice is queued.
abbrev pub is_mailing_of : ℕ → Effect → Bool
is_mailing_of id (invoice_email j _ _) = j == id
is_mailing_of id _ = false

-- The cron job at each of the times.
unfoldable pub run_retries : List ℕ → Store → Store
unfolding retry_pending_emails
run_retries [] s = s
run_retries (now ∷ times) s = run_retries times (retry_pending_emails now s).1

queue_retries_invoices :
    (is : List Invoice) (s : Store) → (queue_retries is s).1.invoices ≡ s.invoices
unfolding queue_retries
queue_retries_invoices [] s = refl
queue_retries_invoices (i ∷ is) s = queue_retries_invoices is _

module _ (id : ℕ) (i : Invoice) (silent : i.email_last_error ≡ none) where
  queue_retries_none :
      (now : ℕ) (is : List Invoice) (s : Store)
      → All (λ r. (r.id == id) ≡ true → r ≡ i) is
      → count (is_mailing_of id) (queue_retries (select (is_retried now) is) s).1.outbox
        ≡ count (is_mailing_of id) s.outbox
  unfolding queue_retries select count
  queue_retries_none now [] s h = refl
  queue_retries_none now (a ∷ is) s (h, hs) = elim (Bool-cases (is_retried now a)) [
    | inr out ↦ rw out (queue_retries_none now is s hs)
    | inl chosen ↦ elim (Bool-cases (a.id == id)) [
      | inl e ↦
          let same = ap (λ r. is_some r.email_last_error) (h e) in
          let none_left = ap is_some silent in absurd (ground (arith, chosen, same, none_left))
      | inr e ↦
          let job = invoice_email a.id a.user_id (a.email_attempts + 1) in
          let more = count-append (is_mailing_of id) s.outbox (job ∷ []) in
          rw chosen (
            queue_retries_none now is (record s { outbox = s.outbox ++ job ∷ [] }) hs
            ∙ ground (arith, more, e))
    ]
  ]

  run_retries_none :
      (times : List ℕ) (s : Store)
      → RowIs id i s.invoices
      → (count (is_mailing_of id) (run_retries times s).outbox ≡ count (is_mailing_of id) s.outbox)
        × RowIs id i (run_retries times s).invoices
  unfolding run_retries retry_pending_emails
  run_retries_none [] s row = (refl, row)
  run_retries_none (now ∷ times) s row =
      let kept = queue_retries_invoices (select (is_retried now) s.invoices) s in
      let (few, there) = run_retries_none times (retry_pending_emails now s).1 (rw kept row) in
      (few ∙ queue_retries_none now s.invoices s row.1, there)

-- If the worker stops in its first attempt to mail an invoice that was sent, and the client wants
-- mails, then the invoice stays pending without an error, and no run of the cron job, at whatever
-- times, queues another attempt.
pub stopped_never_retried :
    (user_id id now : ℕ) (given : Option String) (times : List ℕ) (i : Invoice) (s : Store)
    → RowIs id i s.invoices
    → (send user_id id given s).0 ≡ ok true
    → wants_mails i.user_id s ≡ true
    → let t = (handle_send_email now stopped id 1 (send user_id id given s).1).1 in
      RowIs id (claimed now 1 (after_send given i)) (run_retries times t).invoices
      × (count (is_mailing_of id) (run_retries times t).outbox ≡ count (is_mailing_of id) t.outbox)
stopped_never_retried user_id id now given times i s row sent wants =
    let (start, live, address, kept) = send-RowIs user_id id given i s row sent in
    let mine = row_id id i s.invoices row in
    let after =
      handle_send_email-RowIs now id 1 stopped (after_send given i) (send user_id id given s).1
        start in
    let asked : wants_mails i.user_id (send user_id id given s).1 ≡ true =
      rw (wants_mails, kept) wants in
    let can : is_claimable id 1 (after_send given i) ≡ true = ground (arith, mine, live) in
    let there : RowIs id (claimed now 1 (after_send given i))
        (handle_send_email now stopped id 1 (send user_id id given s).1).1.invoices =
      rw (asked, can, address) at after in
    let (few, still) =
      run_retries_none id (claimed now 1 (after_send given i)) refl times
        (handle_send_email now stopped id 1 (send user_id id given s).1).1 there in
    (still, few)
