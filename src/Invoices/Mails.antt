-- ===== src/Invoices/Mails.antt =====
-- src/workers/invoice.processor.ts and invoice-retry-cron.service.ts: how often an invoice is mailed.
use notaryday_backend.Common.{
  ℕ, ◌+◌, ◌≤◌, ◌≡◌, refl, Bool, true, false, ◌&&◌, ◌==◌, not, none, some, List, [], ◌∷◌, ◌++◌,
  String, is_some, is_empty, find_first, any, update_where, Bool-cases, Option-cases, inl, inr,
  arith, any-update_where_at, any-update_where, any-update_where-false, any-weaken, count,
  count-append, ◌∙◌, select, subst, ==_iff,
}
use notaryday_backend.Schema.{
  Invoice, Store, ok, track, notify, invoice_email, Effect, invoice_mail, NotificationConfig,
}
use notaryday_backend.Tables.{update_invoice, default_settings, get_notification_config}
use notaryday_backend.Invoices.Worker.{
  MailOutcome, delivered, refused, stopped, is_attempt, is_claimable, claimed, failed, mailed,
  unwanted, fail_attempt, mail_invoice, attempt_mail, handle_send_email, is_retried, queue_retries,
  retry_pending_emails, handle_generate_pdf, put_object,
}

-- The mail of an invoice leaves.
abbrev pub is_mail_of : ℕ → Effect → Bool
is_mail_of id (invoice_mail j _) = j == id
is_mail_of id _ = false

-- The invoice waits for a mail.
abbrev pub is_open : ℕ → Invoice → Bool
is_open id i = i.id == id && (not (is_some i.deleted_at) && i.email_pending)

abbrev pub one_if : Bool → ℕ
one_if true = 1
one_if false = 0

-- The mails that have left and the one that may still leave.
unfoldable pub weight : ℕ → Store → ℕ
unfolding count any
weight id s = count (is_mail_of id) s.outbox + one_if (any (is_open id) s.invoices)

-- What the claim of an attempt finds.
module _ (now id attempt : ℕ) where
  claimed_open :
      (j : ℕ) (is : List Invoice)
      → any (is_open j) (update_where (is_claimable id attempt) (claimed now attempt) is)
        ≡ any (is_open j) is
  claimed_open j is =
      any-update_where (is_open j) (is_claimable id attempt) (claimed now attempt) is (λ a. refl)

  claimable_open :
      (is : List Invoice) → any (is_claimable id attempt) is ≡ true → any (is_open id) is ≡ true
  claimable_open is h =
      any-weaken (is_claimable id attempt) (is_open id) is (λ a e. ground (arith, e)) h

-- An update of the rows of one invoice leaves the others' waiting alone.
other_open :
    (id j : ℕ) (f : Invoice → Invoice) (is : List Invoice)
    → ((a : Invoice) → (f a).id ≡ a.id)
    → (id == j) ≡ false
    → any (is_open j) (update_where (λ i. i.id == id) f is) ≡ any (is_open j) is
other_open id j f is keep other =
    any-update_where_at (is_open j) (λ i. i.id == id) f is (λ a e. ground (arith, keep a, e, other))

one_if_le : (b : Bool) → one_if b ≤ 1
one_if_le b = ground arith

-- The rest of an attempt whose invoice waits for a mail.
module _ (now id attempt j : ℕ) where
  weight-fail_attempt :
      (message : String) (s : Store)
      → any (is_open id) s.invoices ≡ true
      → weight j (fail_attempt now id attempt message s).1 ≤ weight j s
  unfolding weight fail_attempt update_invoice
  weight-fail_attempt message s waits =
      let after =
        any (is_open j) (update_where (λ i. i.id == id) (failed now attempt message) s.invoices) in
      elim (Bool-cases (id == j)) [
        | inl e ↦
            let same : id ≡ j = (==_iff id j).0 e in
            let here : any (is_open j) s.invoices ≡ true =
              subst (λ n. any (is_open n) s.invoices ≡ true) same waits in
            let few = one_if_le after in rw here (omega arith)
        | inr e ↦
            rw (other_open id j (failed now attempt message) s.invoices (λ a. refl) e) (omega arith)
      ]

  settled_weight :
      (f : Invoice → Invoice) (s : Store)
      → ((a : Invoice) → (f a).id ≡ a.id)
      → ((a : Invoice) → (f a).email_pending ≡ false)
      → any (is_open id) s.invoices ≡ true
      → one_if (id == j) + one_if (any (is_open j) (update_where (λ i. i.id == id) f s.invoices))
        ≤ one_if (any (is_open j) s.invoices)
  settled_weight f s keep closed waits = elim (Bool-cases (id == j)) [
    | inl e ↦
        let same : id ≡ j = (==_iff id j).0 e in
        let here : any (is_open j) s.invoices ≡ true =
          subst (λ n. any (is_open n) s.invoices ≡ true) same waits in
        let none_left =
          any-update_where-false (is_open j) (λ i. i.id == id) f s.invoices
            (λ a h. ground (arith, closed a)) (λ a h. ground (arith, h, same)) in
        rw (e, here, none_left) (omega arith)
    | inr e ↦ rw (e, other_open id j f s.invoices keep e) (omega arith)
  ]

  weight-mail_invoice :
      (outcome : MailOutcome) (i : Invoice) (s : Store)
      → any (is_open id) s.invoices ≡ true
      → weight j (mail_invoice now outcome id attempt i s).1 ≤ weight j s
  unfolding weight mail_invoice update_invoice count
  weight-mail_invoice delivered i s waits =
      let fewer = settled_weight (mailed now) s (λ a. refl) (λ a. refl) waits in
      let first = count-append (is_mail_of j) s.outbox (invoice_mail id i.recipient_email ∷ []) in
      let both =
        count-append (is_mail_of j) (s.outbox ++ invoice_mail id i.recipient_email ∷ [])
          (track "invoice_sent" i.user_id ∷ []) in
      ground (arith, fewer, first, both)
  weight-mail_invoice (refused message) i s waits = weight-fail_attempt message s waits
  weight-mail_invoice stopped i s waits = omega arith

-- The client gets mails about invoices.
abbrev pub wants_mails : ℕ → Store → Bool
wants_mails user_id s = elim (find_first (λ r. r.user_id == user_id) s.settings) [
  | none ↦ true
  | some r ↦ r.notifications.client_invoice
]

-- Reading the preferences leaves the invoices and the messages.
abbrev HasConfig : ℕ → Store → Type 0
HasConfig user_id s =
    (config : NotificationConfig) × (t : Store) × (get_notification_config user_id s
      ≡ (ok config, t))
    × (t.invoices ≡ s.invoices)
    × (t.outbox ≡ s.outbox)
    × (config.client_invoice ≡ wants_mails user_id s)

pub get_notification_config-HasConfig : (user_id : ℕ) (s : Store) → HasConfig user_id s
unfolding get_notification_config find_first
get_notification_config-HasConfig user_id s =
    elim (Option-cases (find_first (λ r. r.user_id == user_id) s.settings)) [
      | inr (r, e) ↦ (r.notifications, s, rw e refl, refl, refl, rw (wants_mails, e) refl)
      | inl e ↦
          let new = default_settings user_id in
          (
            new.notifications,
            record s { settings = new ∷ s.settings },
            rw e refl,
            refl,
            refl,
            rw (wants_mails, e) refl,
          )
    ]

weight_same :
    (j : ℕ) (s t : Store) → t.invoices ≡ s.invoices → t.outbox ≡ s.outbox → weight j t ≡ weight j s
unfolding weight
weight_same j s t e f = rw (e, f) refl

module _ (now id attempt j : ℕ) where
  weight-attempt_mail :
      (outcome : MailOutcome) (i : Invoice) (s : Store)
      → any (is_open id) s.invoices ≡ true
      → weight j (attempt_mail now outcome id attempt i s).1 ≤ weight j s
  unfolding attempt_mail
  weight-attempt_mail outcome i s waits = elim (Bool-cases (is_empty i.recipient_email)) [
    | inl e ↦
        rw e (weight-fail_attempt now id attempt j "Invoice or recipient email not found" s waits)
    | inr e ↦
        let (config, t, step, same, sent, _) = get_notification_config-HasConfig i.user_id s in
        let there : any (is_open id) t.invoices ≡ true = rw same waits in
        let level = weight_same j s t same sent in
        elim (Bool-cases config.client_invoice) [
          | inl c ↦
              let less = weight-mail_invoice now id attempt j outcome i t there in
              rw (e, step, c) (omega arith)
          | inr c ↦
              let less = settled_weight now id attempt j unwanted t (λ a. refl) (λ a. refl) there in
              let kept = unwanted_weight t less in rw (e, step, c) (omega arith)
        ]
  ]
    where
      unwanted_weight :
          (t : Store)
          → one_if (id == j)
              + one_if (any (is_open j) (update_where (λ r. r.id == id) unwanted t.invoices))
            ≤ one_if (any (is_open j) t.invoices)
          → weight j (update_invoice id unwanted t).1 ≤ weight j t
      unwanted_weight t less = unfold weight update_invoice in omega arith

  weight-handle_send_email :
      (outcome : MailOutcome) (s : Store)
      → weight j (handle_send_email now outcome id attempt s).1 ≤ weight j s
  unfolding handle_send_email
  weight-handle_send_email outcome s =
      elim (Bool-cases (is_attempt attempt && any (is_claimable id attempt) s.invoices)) [
        | inr e ↦ rw e (omega arith)
        | inl e ↦
            let t : Store = record s {
              invoices = update_where (is_claimable id attempt) (claimed now attempt) s.invoices;
            } in
            let start = claimable_open now id attempt s.invoices (ground (arith, e)) in
            let waits : any (is_open id) t.invoices ≡ true =
              rw (claimed_open now id attempt id s.invoices) start in
            let level : weight j t ≡ weight j s =
              unfold weight in rw (claimed_open now id attempt j s.invoices) refl in
            elim (Option-cases (find_first (λ i. i.id == id) t.invoices)) [
              | inl f ↦
                  let less =
                    weight-fail_attempt now id attempt j "Invoice or recipient email not found" t
                      waits in
                  rw (e, f) (omega arith)
              | inr (i, f) ↦
                  let less = weight-attempt_mail outcome i t waits in rw (e, f) (omega arith)
            ]
      ]

module _ (j : ℕ) where
  weight-queue_retries :
      (is : List Invoice) (s : Store) → weight j (queue_retries is s).1 ≡ weight j s
  unfolding weight queue_retries count
  weight-queue_retries [] s = refl
  weight-queue_retries (i ∷ is) s =
      let one =
        count-append (is_mail_of j) s.outbox
          (invoice_email i.id i.user_id (i.email_attempts + 1) ∷ []) in
      let rest = weight-queue_retries is (record s {
        outbox = s.outbox ++ invoice_email i.id i.user_id (i.email_attempts + 1) ∷ [];
      }) in
      rest ∙ ground (arith, one)

  weight-handle_generate_pdf :
      (now : ℕ) (uploaded for_edit : Bool) (id user_id : ℕ) (s : Store)
      → weight j (handle_generate_pdf now uploaded for_edit id user_id s).1 ≡ weight j s
  unfolding handle_generate_pdf weight put_object update_invoice count
  weight-handle_generate_pdf now uploaded for_edit id user_id s =
      elim (Option-cases (find_first (λ i. i.id == id) s.invoices)) [
        | inl e ↦ rw e refl
        | inr (i, e) ↦
            let kept =
              any-update_where (is_open j) (λ r. r.id == id)
                (λ r. record r {
                  pdf_url = some (record {
                    number_year = i.number_year;
                    number_seq = i.number_seq;
                    version = now;
                  });
                  pdf_pending = false;
                })
                s.invoices (λ a. refl) in
            let note = count-append (is_mail_of j) s.outbox (notify "INVOICE_SENT" user_id ∷ []) in
            ground (arith, e, kept, note)
      ]

-- What the worker of the invoices and its cron job do.
pub data WorkerCall : Type 0 where
  a_mail : ℕ → MailOutcome → ℕ → ℕ → WorkerCall
  a_retry : ℕ → WorkerCall
  a_pdf : ℕ → Bool → Bool → ℕ → ℕ → WorkerCall

unfoldable pub run_worker : WorkerCall → Store → Store
unfolding handle_send_email retry_pending_emails handle_generate_pdf
run_worker (a_mail now outcome id attempt) s = (handle_send_email now outcome id attempt s).1
run_worker (a_retry now) s = (retry_pending_emails now s).1
run_worker (a_pdf now uploaded for_edit id user_id) s =
    (handle_generate_pdf now uploaded for_edit id user_id s).1

unfoldable pub run_workers : List WorkerCall → Store → Store
unfolding run_worker
run_workers [] s = s
run_workers (c ∷ cs) s = run_workers cs (run_worker c s)

weight-run_worker : (j : ℕ) (c : WorkerCall) (s : Store) → weight j (run_worker c s) ≤ weight j s
unfolding run_worker retry_pending_emails
weight-run_worker j (a_mail now outcome id attempt) s =
    weight-handle_send_email now id attempt j outcome s
weight-run_worker j (a_retry now) s =
    let same = weight-queue_retries j (select (is_retried now) s.invoices) s in omega arith
weight-run_worker j (a_pdf now uploaded for_edit id user_id) s =
    let same = weight-handle_generate_pdf j now uploaded for_edit id user_id s in omega arith

weight-run_workers :
    (j : ℕ) (cs : List WorkerCall) (s : Store) → weight j (run_workers cs s) ≤ weight j s
unfolding run_workers
weight-run_workers j [] s = omega arith
weight-run_workers j (c ∷ cs) s =
    let one = weight-run_worker j c s in
    let rest = weight-run_workers j cs (run_worker c s) in omega arith

-- Whatever jobs the invoice worker and its cron job run, in whatever order, with whatever attempts and
-- outcomes, at most one mail of an invoice leaves, and none if the invoice does not wait for one, as
-- long as the database takes every write.
pub mailed_at_most_once :
    (id : ℕ) (calls : List WorkerCall) (s : Store)
    → count (is_mail_of id) (run_workers calls s).outbox
      ≤ count (is_mail_of id) s.outbox + one_if (any (is_open id) s.invoices)
unfolding weight
mailed_at_most_once id calls s = let less = weight-run_workers id calls s in omega (arith, less)
