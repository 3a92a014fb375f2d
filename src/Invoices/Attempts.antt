-- ===== src/Invoices/Attempts.antt =====
-- src/workers/invoice.processor.ts: what an attempt to mail does to the row of its invoice.
use mathlib.Core.Bool.{false≢true}
use notaryday_backend.Common.{
  ℕ, ◌≡◌, refl, Bool, true, false, ◌&&◌, ◌==◌, some, List, [], ◌∷◌, is_empty, get_or, find_first,
  any, update_where, All, Bool-cases, inl, inr, arith, if◌then◌else◌, ◌∙◌, sym, All-update_where,
  find_first-update_where, ap, find_first_sound,
}
use notaryday_backend.Schema.{Invoice, Store}
use notaryday_backend.Tables.{update_invoice}
use notaryday_backend.Invoices.Worker.{
  MailOutcome, delivered, refused, stopped, is_attempt, is_claimable, claimed, failed, mailed,
  unwanted, fail_attempt, mail_invoice, attempt_mail, handle_send_email,
}
use notaryday_backend.Invoices.Mails.{wants_mails, get_notification_config-HasConfig}

-- The table holds one row with the identifier, and this is it.
abbrev pub RowIs : ℕ → Invoice → List Invoice → Type 0
RowIs id i is =
    (find_first (λ r. r.id == id) is ≡ some i) × All (λ r. (r.id == id) ≡ true → r ≡ i) is

abbrev pub answered : ℕ → MailOutcome → ℕ → Invoice → Invoice
answered now delivered attempt i = mailed now i
answered now (refused message) attempt i = failed now attempt message i
answered now stopped attempt i = i

-- What the attempt leaves of the row: `wants` tells whether the client wants mails.
abbrev pub ended : Bool → ℕ → MailOutcome → ℕ → Invoice → Invoice
ended wants now outcome attempt i =
    if is_empty i.recipient_email
    then failed now attempt "Invoice or recipient email not found" i
    else if wants
    then answered now outcome attempt i
    else unwanted i

abbrev pub attempted : Bool → ℕ → MailOutcome → ℕ → ℕ → Invoice → Invoice
attempted wants now outcome id attempt i =
    if is_attempt attempt && is_claimable id attempt i
    then ended wants now outcome attempt (claimed now attempt i)
    else i

some_inj : {a b : Invoice} → some a ≡ some b → a ≡ b
some_inj {a} h = ap (λ o. get_or o a) h

module _ (id : ℕ) (i : Invoice) (rows : List Invoice) (row : RowIs id i rows) where
  pub row_id : (i.id == id) ≡ true
  row_id = find_first_sound (λ r. r.id == id) rows row.0

  pub updated-RowIs :
      (f : Invoice → Invoice)
      → ((a : Invoice) → (f a).id ≡ a.id)
      → RowIs id (f i) (update_where (λ r. r.id == id) f rows)
  updated-RowIs f keep = (
    find_first-update_where (λ r. r.id == id) f rows (λ a e. rw (keep a) e) row.0,
    All-update_where (λ r. (r.id == id) ≡ true → r ≡ i) (λ r. (r.id == id) ≡ true → r ≡ f i)
        (λ r. r.id == id) f rows (λ a e same _. ap f (same e))
        (λ a e same h. absurd (false≢true (sym e ∙ h))) row.1,
  )

  -- A search that only this row can pass finds it.
  pub found-RowIs :
      (p : Invoice → Bool) {j : Invoice}
      → ((a : Invoice) → p a ≡ true → (a.id == id) ≡ true)
      → find_first p rows ≡ some j
      → j ≡ i
  unfolding find_first
  found-RowIs p {j} here found = search_all rows row.1 found
    where
      search_all :
          (is : List Invoice)
          → All (λ r. (r.id == id) ≡ true → r ≡ i) is
          → find_first p is ≡ some j
          → j ≡ i
      search_all [] h f = cc
      search_all (a ∷ is) (h, hs) f = elim (Bool-cases (p a)) [
        | inl e ↦ let first : some a ≡ some j = rw e at f in sym (some_inj first) ∙ h (here a e)
        | inr e ↦ search_all is hs (rw e at f)
      ]

  -- The claim reaches the row, or no row.
  claimed-RowIs :
      (now attempt : ℕ)
      → is_claimable id attempt i ≡ true
      → RowIs id
          (claimed now attempt i)
          (update_where (is_claimable id attempt) (claimed now attempt) rows)
  unfolding find_first update_where
  claimed-RowIs now attempt can = (
    find_first-claimed rows row.1 row.0,
    All-update_where (λ r. (r.id == id) ≡ true → r ≡ i)
        (λ r. (r.id == id) ≡ true → r ≡ claimed now attempt i) (is_claimable id attempt)
        (claimed now attempt) rows (λ a e same h. ap (claimed now attempt) (same h))
        (λ a e same h. absurd (false≢true (sym e ∙ (ap (is_claimable id attempt) (same h) ∙ can))))
        row.1,
  )
    where
      find_first-claimed :
          (is : List Invoice)
          → All (λ r. (r.id == id) ≡ true → r ≡ i) is
          → find_first (λ r. r.id == id) is ≡ some i
          → find_first
              (λ r. r.id == id)
              (update_where (is_claimable id attempt) (claimed now attempt) is)
            ≡ some (claimed now attempt i)
      find_first-claimed [] h f = cc
      find_first-claimed (a ∷ is) (h, hs) f = elim (Bool-cases (a.id == id)) [
        | inl e ↦
            let same = h e in
            let mine : is_claimable id attempt a ≡ true = ap (is_claimable id attempt) same ∙ can in
            rw (mine, e) (ap (λ r. some (claimed now attempt r)) same)
        | inr e ↦
            let not_mine : is_claimable id attempt a ≡ false = ground (arith, e) in
            rw (not_mine, e) (find_first-claimed is hs (rw e at f))
      ]

  -- A test that only this row can pass.
  pub any-row :
      (q : Invoice → Bool) → ((a : Invoice) → q a ≡ true → (a.id == id) ≡ true) → any q rows ≡ q i
  unfolding any find_first
  any-row q here = search_all rows row.1 row.0
    where
      rest_false : (a : Invoice) → (a.id == id) ≡ false → q a ≡ false
      rest_false a e = elim (Bool-cases (q a)) [
        | inl h ↦ absurd (false≢true (sym e ∙ here a h))
        | inr h ↦ h
      ]

      search_rest :
          (is : List Invoice)
          → All (λ r. (r.id == id) ≡ true → r ≡ i) is
          → q i ≡ false
          → any q is ≡ false
      search_rest [] h out = refl
      search_rest (a ∷ is) (h, hs) out = elim (Bool-cases (a.id == id)) [
        | inl e ↦ rw (ap q (h e), out) (search_rest is hs out)
        | inr e ↦ rw (rest_false a e) (search_rest is hs out)
      ]

      search_all :
          (is : List Invoice)
          → All (λ r. (r.id == id) ≡ true → r ≡ i) is
          → find_first (λ r. r.id == id) is ≡ some i
          → any q is ≡ q i
      search_all [] h f = cc
      search_all (a ∷ is) (h, hs) f = elim (Bool-cases (a.id == id)) [
        | inr e ↦ rw (rest_false a e) (search_all is hs (rw e at f))
        | inl e ↦ elim (Bool-cases (q i)) [
          | inl here_too ↦ rw (ap q (h e), here_too) refl
          | inr out ↦ rw (ap q (h e), out) (search_rest is hs out)
        ]
      ]

module _ (now id attempt : ℕ) where
  mail_invoice-RowIs :
      (outcome : MailOutcome) (i : Invoice) (s : Store)
      → RowIs id i s.invoices
      → RowIs id
          (answered now outcome attempt i)
          (mail_invoice now outcome id attempt i s).1.invoices
  unfolding mail_invoice fail_attempt update_invoice
  mail_invoice-RowIs delivered i s row = updated-RowIs id i s.invoices row (mailed now) (λ a. refl)
  mail_invoice-RowIs (refused message) i s row =
      updated-RowIs id i s.invoices row (failed now attempt message) (λ a. refl)
  mail_invoice-RowIs stopped i s row = row

  attempt_mail-RowIs :
      (outcome : MailOutcome) (i : Invoice) (s : Store)
      → RowIs id i s.invoices
      → RowIs id
          (ended (wants_mails i.user_id s) now outcome attempt i)
          (attempt_mail now outcome id attempt i s).1.invoices
  unfolding attempt_mail fail_attempt update_invoice
  attempt_mail-RowIs outcome i s row = elim (Bool-cases (is_empty i.recipient_email)) [
    | inl e ↦ rw e (
        updated-RowIs id i s.invoices row
          (failed now attempt "Invoice or recipient email not found") (λ a. refl))
    | inr e ↦
        let (config, t, step, same, _, asked) = get_notification_config-HasConfig i.user_id s in
        let there : RowIs id i t.invoices = rw same row in
        elim (Bool-cases config.client_invoice) [
          | inl c ↦ rw (sym asked, e, step, c) (mail_invoice-RowIs outcome i t there)
          | inr c ↦
              rw (sym asked, e, step, c) (updated-RowIs id i t.invoices there unwanted (λ a. refl))
        ]
  ]

  -- The row after an attempt, as a function of the row before it.
  pub handle_send_email-RowIs :
      (outcome : MailOutcome) (i : Invoice) (s : Store)
      → RowIs id i s.invoices
      → RowIs id
          (attempted (wants_mails i.user_id s) now outcome id attempt i)
          (handle_send_email now outcome id attempt s).1.invoices
  unfolding handle_send_email
  handle_send_email-RowIs outcome i s row =
      let found =
        any-row id i s.invoices row (is_claimable id attempt) (λ a e. ground (arith, e)) in
      elim (Bool-cases (is_attempt attempt && is_claimable id attempt i)) [
        | inr e ↦ rw (found, e) row
        | inl e ↦
            let t : Store = record s {
              invoices = update_where (is_claimable id attempt) (claimed now attempt) s.invoices;
            } in
            let there = claimed-RowIs id i s.invoices row now attempt (ground (arith, e)) in
            rw (found, e, there.0) (attempt_mail-RowIs outcome (claimed now attempt i) t there)
      ]
