-- ===== src/Invoices/Retries.antt =====
-- src/workers/invoice.processor.ts and invoice-retry-cron.service.ts: the attempts to mail an invoice
-- come to an end, or are lost.
use mathlib.Core.Bool.{false≢true}
use notaryday_backend.Common.{
  ℕ, suc, ◌<◌, ◌≤◌, ◌≡◌, refl, Bool, true, false, ◌&&◌, ◌||◌, ◌==◌, not, Option, none, String,
  is_empty, find_first, update_where, Bool-cases, Option-cases, inl, inr, arith, sym, subst,
  find_first_sound, has_char,
}
use notaryday_backend.Schema.{Invoice, Store, ok}
use notaryday_backend.Tables.{update_invoice, live_invoice}
use notaryday_backend.Invoices.Edits.{send, find_one, delivery_address}
use notaryday_backend.Invoices.Worker.{
  MailOutcome, delivered, refused, stopped, is_attempt, is_claimable, claimed, handle_send_email,
}
use notaryday_backend.Invoices.Attempts.{
  RowIs, answered, ended, attempted, updated-RowIs, found-RowIs, row_id, handle_send_email-RowIs,
}
use notaryday_backend.Invoices.Mails.{wants_mails}

-- The provider answers.
abbrev pub is_answered : MailOutcome → Bool
is_answered delivered = true
is_answered (refused _) = true
is_answered stopped = false

-- The three attempts that the mail of an invoice has.
unfoldable pub three_attempts : ℕ → (ℕ → ℕ) → (ℕ → MailOutcome) → Store → Store
unfolding handle_send_email
three_attempts id times outcomes s =
    (handle_send_email (times 3) (outcomes 3) id 3
      (handle_send_email (times 2) (outcomes 2) id 2
        (handle_send_email (times 1) (outcomes 1) id 1 s).1).1).1

-- The row after `send`.
abbrev pub readied : String → Invoice → Invoice
readied address i = record i {
  recipient_email = address;
  email_pending = true;
  email_attempts = 0;
  email_last_attempt_at = none;
  email_last_error = none;
  email_failed_at = none;
}

abbrev pub after_send : Option String → Invoice → Invoice
after_send given i = readied (delivery_address given i) i

-- The live row of the invoice, and if it waits for a mail, then n attempts have been made and another
-- one is to come.
abbrev pub IsAt : ℕ → ℕ → Invoice → Type 0
IsAt id n i =
    ((i.id == id) ≡ true)
    × (i.deleted_at ≡ none)
    × (i.email_pending ≡ true → (i.email_attempts ≡ n) × (n < 3))

module _ (wants : Bool) (now id n : ℕ) where
  ended-IsAt :
      (outcome : MailOutcome) (i : Invoice)
      → is_answered outcome ≡ true
      → (i.id == id) ≡ true
      → i.deleted_at ≡ none
      → i.email_attempts ≡ n
      → n ≤ 3
      → IsAt id n (ended wants now outcome n i)
  ended-IsAt outcome i answers same live made most =
      elim (Bool-cases (is_empty i.recipient_email)) [
        | inl e ↦ rw e (same, live, λ w. (made, ground (arith, w)))
        | inr e ↦ elim (Bool-cases wants) [
          | inr v ↦ rw (e, v) (same, live, λ w. absurd (false≢true w))
          | inl v ↦ rw (e, v) (answered-IsAt outcome answers)
        ]
      ]
    where
      answered-IsAt : (o : MailOutcome) → is_answered o ≡ true → IsAt id n (answered now o n i)
      answered-IsAt delivered h = (same, live, λ w. absurd (false≢true w))
      answered-IsAt (refused message) h = (same, live, λ w. (made, ground (arith, w)))
      answered-IsAt stopped h = absurd (false≢true h)

-- An attempt that the provider answers is the last or leaves one less.
attempted-IsAt :
    (wants : Bool) (now id n : ℕ) (outcome : MailOutcome) (i : Invoice)
    → is_answered outcome ≡ true
    → IsAt id n i
    → IsAt id (suc n) (attempted wants now outcome id (suc n) i)
attempted-IsAt wants now id n outcome i answers (same, live, at) =
    elim (Bool-cases (is_attempt (suc n) && is_claimable id (suc n) i)) [
      | inl e ↦ rw e (
          ended-IsAt wants now id (suc n) outcome (claimed now (suc n) i) answers same live refl
            (ground (arith, e)))
      | inr e ↦
          rw e (
            same,
            live,
            λ w. let (made, most) = at w in ground (arith, e, same, live, w, made, most),
          )
    ]

pub send-RowIs :
    (user_id id : ℕ) (given : Option String) (i : Invoice) (s : Store)
    → RowIs id i s.invoices
    → (send user_id id given s).0 ≡ ok true
    → RowIs id (after_send given i) (send user_id id given s).1.invoices
      × (i.deleted_at ≡ none)
      × (is_empty (delivery_address given i) ≡ false)
      × ((send user_id id given s).1.settings ≡ s.settings)
unfolding send find_one update_invoice
send-RowIs user_id id given i s row sent =
    elim (Option-cases (find_first (live_invoice user_id id) s.invoices)) [
      | inl e ↦ let no_answer = rw e at sent in cc
      | inr (j, e) ↦
          let same =
            found-RowIs id i s.invoices row (live_invoice user_id id) (λ a h. ground (arith, h))
              e in
          let live : i.deleted_at ≡ none =
            ground (arith, find_first_sound (live_invoice user_id id) s.invoices e, same) in
          let (mine, _) = row in
          elim (Bool-cases (
            is_empty (delivery_address given j)
            || not (has_char b'@' (delivery_address given j)))) [
              | inl bad ↦ let no_answer = rw (e, bad) at sent in cc
              | inr good ↦
                  let written =
                    updated-RowIs id i s.invoices row (readied (delivery_address given i))
                      (λ a. refl) in
                  rw (e, good)
                    (
                      subst
                          (λ k. RowIs id (after_send given i) (
                            update_where (λ r. r.id == id) (readied (delivery_address given k))
                              s.invoices))
                          (sym same) written,
                      live,
                      ground (arith, good, same),
                      refl,
                    )
            ]
    ]

-- Once an invoice is sent, three attempts that the provider answers, with whatever answers and at
-- whatever times, end the wait: the row with its identifier, which is the only one, is no longer
-- pending.
pub attempts_end :
    (user_id id : ℕ) (given : Option String) (times : ℕ → ℕ) (outcomes : ℕ → MailOutcome)
    (i : Invoice) (s : Store)
    → RowIs id i s.invoices
    → (send user_id id given s).0 ≡ ok true
    → ((n : ℕ) → is_answered (outcomes n) ≡ true)
    → (j : Invoice) × RowIs id j
        (three_attempts id times outcomes (send user_id id given s).1).invoices
      × (j.email_pending ≡ false)
unfolding three_attempts
attempts_end user_id id given times outcomes i s row sent answers =
    let (start, live, _, _) = send-RowIs user_id id given i s row sent in
    let (j, at, settled) =
      after_three (after_send given i) (send user_id id given s).1 start
        (row_id id i s.invoices row, live, λ _. (refl, omega arith)) in
    (j, at, settled)
  where
    after_one :
        (n : ℕ) (j : Invoice) (t : Store)
        → RowIs id j t.invoices
        → IsAt id n j
        → (k : Invoice) × RowIs id k
            (handle_send_email (times (suc n)) (outcomes (suc n)) id (suc n) t).1.invoices
          × IsAt id (suc n) k
    after_one n j t r at =
        let wants = wants_mails j.user_id t in
        (
          attempted wants (times (suc n)) (outcomes (suc n)) id (suc n) j,
          handle_send_email-RowIs (times (suc n)) id (suc n) (outcomes (suc n)) j t r,
          attempted-IsAt wants (times (suc n)) id n (outcomes (suc n)) j (answers (suc n)) at,
        )

    after_three :
        (j : Invoice) (t : Store)
        → RowIs id j t.invoices
        → IsAt id 0 j
        → (k : Invoice) × RowIs id k (three_attempts id times outcomes t).invoices
          × (k.email_pending ≡ false)
    after_three j t r at =
        let (j1, r1, at1) = after_one 0 j t r at in
        let (j2, r2, at2) = after_one 1 j1 _ r1 at1 in
        let (j3, r3, (_, _, at3)) = after_one 2 j2 _ r2 at2 in
        (
          j3,
          r3,
          elim (Bool-cases j3.email_pending) [
            | inr h ↦ h
            | inl h ↦ let (_, most) = at3 h in absurd (omega (arith, most))
          ],
        )
