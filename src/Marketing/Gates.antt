-- ===== src/Marketing/Gates.antt =====
-- src/workers/marketing/services/send-email.service.ts: when `send` hands a mail over.
use notaryday_backend.Common.{
  ℕ, ◌≡◌, ◌<◌, ◌⊎◌, refl, sym, subst, inl, inr, Bool, true, false, ◌&&◌, ◌||◌, ◌==◌, Option, none,
  some, List, ◌∷◌, is_empty, find_first, Bool-cases, Option-cases, arith, leb, if◌then◌else◌,
}
use notaryday_backend.Marketing.{
  Recipient, Campaign, Lead, EmailProvider, Mail, Crm, is_sending, is_running, day_of,
}
use notaryday_backend.Marketing.Sending.{
  Gate, skip_for, suppressed_for, fail_for, postpone, next_day, ready, Outcome, taken, unrecorded,
  rejected, effective_daily_limit, sent_on, lead_of, is_excluded, has_replied, has_draft,
  find_suppression, decide_provider, decide_lead, decide_running, decide, skip, fail, requeue_at,
  unsubscribe_lead, record_contact, record_sent, catch_error, deliver, carry_out, send,
}

-- Everything that has to hold for a mail to go out, read from the database at that moment.
pub record IsMailable (now : ℕ) (s : Crm) (r : Recipient) (c : Campaign) (p : EmailProvider)
    : Type 0 where
  pub campaign : find_first (λ c. c.id == r.campaign_ref) s.campaigns ≡ some c
  pub campaign_runs : is_running c.status ≡ true
  pub not_suppressed : is_empty r.email ≡ false → find_suppression r.email s ≡ none
  pub not_excluded : is_excluded (lead_of s r) ≡ false
  pub no_reply : c.stop_on_reply ≡ true → has_replied (lead_of s r) ≡ false
  pub provider : find_first (λ p. p.id == r.provider_ref) s.providers ≡ some p
  pub provider_active : p.is_active ≡ true
  pub budget_left : sent_on (day_of now) p < effective_daily_limit now p
  pub content : c.is_template || has_draft s r ≡ true

-- A gate that lets a mail through has been reached with everything in place.
abbrev Clears : ℕ → Crm → Recipient → Gate → Type 0
Clears now s r (ready c p) = IsMailable now s r c p
Clears now s r (skip_for _) = Unit
Clears now s r (suppressed_for _) = Unit
Clears now s r (fail_for _) = Unit
Clears now s r postpone = Unit
Clears now s r next_day = Unit

module _ (now : ℕ) (s : Crm) (r : Recipient) where
  reached :
      {c : Campaign} {p : EmailProvider}
      → decide_provider now s r c ≡ ready c p
      → IsMailable now s r c p
      → Clears now s r (decide_provider now s r c)
  reached e h = subst (Clears now s r) (sym e) h

  module _ (c : Campaign) (campaign : find_first (λ c. c.id == r.campaign_ref) s.campaigns ≡ some c)
      (runs : is_running c.status ≡ true)
      (listed : is_empty r.email ≡ false → find_suppression r.email s ≡ none) where
    decide_provider-Clears :
        is_excluded (lead_of s r) ≡ false
        → (c.stop_on_reply ≡ true → has_replied (lead_of s r) ≡ false)
        → Clears now s r (decide_provider now s r c)
    unfolding decide_provider
    decide_provider-Clears kept silent =
        elim (Option-cases (find_first (λ p. p.id == r.provider_ref) s.providers)) [
          | inl e ↦ rw (Clears, e) tt
          | inr (p, e) ↦ elim (Bool-cases p.is_active) [
            | inr a ↦ rw (Clears, e, a) tt
            | inl a ↦
                elim (Bool-cases (leb (effective_daily_limit now p) (sent_on (day_of now) p))) [
                  | inl b ↦ rw (Clears, e, a, b) tt
                  | inr b ↦ elim (Bool-cases (c.is_template || has_draft s r)) [
                    | inr d ↦ rw (Clears, e, a, b, d) tt
                    | inl d ↦ reached (ground (arith, e, a, b, d)) (record {
                      campaign = campaign;
                      campaign_runs = runs;
                      not_suppressed = listed;
                      not_excluded = kept;
                      no_reply = silent;
                      provider = e;
                      provider_active = a;
                      budget_left = ground (arith, b);
                      content = d;
                    })
                  ]
                ]
          ]
        ]

    decide_lead-Clears : Clears now s r (decide_lead now s r c (lead_of s r))
    unfolding decide_lead
    decide_lead-Clears = elim (Bool-cases (is_excluded (lead_of s r))) [
      | inl x ↦ rw (Clears, x) tt
      | inr x ↦ elim (Bool-cases (c.stop_on_reply && has_replied (lead_of s r))) [
        | inl y ↦ rw (Clears, x, y) tt
        | inr y ↦ rw (Clears, x, y) (decide_provider-Clears x (λ stops. ground (arith, stops, y)))
      ]
    ]

  decide-Clears : Clears now s r (decide now s r)
  unfolding decide decide_running
  decide-Clears = elim (Option-cases (find_first (λ c. c.id == r.campaign_ref) s.campaigns)) [
    | inl e ↦ rw (Clears, e) tt
    | inr (c, e) ↦ elim (Bool-cases (is_running c.status)) [
      | inr n ↦ rw (Clears, e, n) tt
      | inl n ↦ elim (Bool-cases (is_empty r.email)) [
        | inl m ↦
            rw (Clears, e, n, m) (decide_lead-Clears c e n (λ k. absurd (ground (arith, m, k))))
        | inr m ↦ elim (Option-cases (find_suppression r.email s)) [
          | inl x ↦ rw (Clears, e, n, m, x) (decide_lead-Clears c e n (λ k. x))
          | inr (x, y) ↦ rw (Clears, e, n, m, y) tt
        ]
      ]
    ]
  ]

  -- Read backwards, gate by gate.
  decide_provider_ready :
      {c : Campaign} {p : EmailProvider}
      → IsMailable now s r c p
      → decide_provider now s r c ≡ ready c p
  unfolding decide_provider
  decide_provider_ready h =
      let e = h.provider in
      let a = h.provider_active in
      let b = h.budget_left in let d = h.content in ground (arith, e, a, b, d)

  decide_lead_ready :
      {c : Campaign} {p : EmailProvider}
      → IsMailable now s r c p
      → decide_lead now s r c (lead_of s r) ≡ ready c p
  unfolding decide_lead
  decide_lead_ready {c} {p} h =
      let x = h.not_excluded in
      let y : c.stop_on_reply && has_replied (lead_of s r) ≡ false = ground (arith, h.no_reply) in
      rw (x, y) (decide_provider_ready h)

  IsMailable-decide :
      {c : Campaign} {p : EmailProvider} → IsMailable now s r c p → decide now s r ≡ ready c p
  unfolding decide decide_running
  IsMailable-decide {c} {p} h =
      let e = h.campaign in
      let n = h.campaign_runs in
      elim (Bool-cases (is_empty r.email)) [
        | inl m ↦ rw (decide, e, n, m) (decide_lead_ready h)
        | inr m ↦ let x = h.not_suppressed m in rw (decide, e, n, m, x) (decide_lead_ready h)
      ]

abbrev pub mail_of : Recipient → EmailProvider → Mail
mail_of r p = record { recipient_id = r.id; email = r.email; provider_id = p.id }

abbrev pub is_taken : Outcome → Bool
is_taken (taken _) = true
is_taken (unrecorded _) = true
is_taken (rejected _) = false

-- The mails after the gates.
abbrev mails_after : Outcome → Recipient → Crm → Gate → List Mail
mails_after outcome r s (ready c p) = if is_taken outcome then mail_of r p ∷ s.mails else s.mails
mails_after outcome r s (skip_for _) = s.mails
mails_after outcome r s (suppressed_for _) = s.mails
mails_after outcome r s (fail_for _) = s.mails
mails_after outcome r s postpone = s.mails
mails_after outcome r s next_day = s.mails

unsubscribe_lead_mails : (l : Option Lead) (s : Crm) → (unsubscribe_lead l s).mails ≡ s.mails
unfolding unsubscribe_lead
unsubscribe_lead_mails l s = ground arith

deliver_mails :
    (now : ℕ) (outcome : Outcome) (is_final : Bool) (r : Recipient) (c : Campaign)
    (p : EmailProvider) (s : Crm)
    → (deliver now outcome is_final r c p s).1.mails
      ≡ (if is_taken outcome then mail_of r p ∷ s.mails else s.mails)
unfolding deliver record_sent record_contact catch_error fail
deliver_mails now outcome is_final r c p s = ground arith

carry_out_mails :
    (now : ℕ) (outcome : Outcome) (is_final : Bool) (r : Recipient) (s : Crm) (g : Gate)
    → (carry_out now outcome is_final r s g).1.mails ≡ mails_after outcome r s g
unfolding carry_out skip fail requeue_at
carry_out_mails now outcome is_final r s (skip_for _) = refl
carry_out_mails now outcome is_final r s (suppressed_for reason) =
    unsubscribe_lead_mails (lead_of s r) (skip r reason s)
carry_out_mails now outcome is_final r s (fail_for _) = refl
carry_out_mails now outcome is_final r s postpone = refl
carry_out_mails now outcome is_final r s next_day = refl
carry_out_mails now outcome is_final r s (ready c p) = deliver_mails now outcome is_final r c p s

-- A mail goes out: the recipient is claimed, everything is in place, and the provider takes it.
pub record IsMailed (now : ℕ) (outcome : Outcome) (r : Recipient) (s : Crm) (mails : List Mail)
    : Type 0 where
  pub c : Campaign
  pub p : EmailProvider
  pub claimed : is_sending r.status ≡ true
  pub mailable : IsMailable now s r c p
  pub provider_took : is_taken outcome ≡ true
  pub one_mail : mails ≡ mail_of r p ∷ s.mails

mails_after-IsMailed :
    (now : ℕ) (outcome : Outcome) (r : Recipient) (s : Crm) (g : Gate)
    → is_sending r.status ≡ true
    → Clears now s r g
    → IsMailed now outcome r s (mails_after outcome r s g) ⊎ (mails_after outcome r s g ≡ s.mails)
mails_after-IsMailed now outcome r s (ready c p) sending h = elim (Bool-cases (is_taken outcome)) [
  | inr e ↦ inr (rw (mails_after, e) refl)
  | inl e ↦ inl (record {
    c = c;
    p = p;
    claimed = sending;
    mailable = h;
    provider_took = e;
    one_mail = rw (mails_after, e) refl;
  })
]
mails_after-IsMailed now outcome r s (skip_for _) sending h = inr refl
mails_after-IsMailed now outcome r s (suppressed_for _) sending h = inr refl
mails_after-IsMailed now outcome r s (fail_for _) sending h = inr refl
mails_after-IsMailed now outcome r s postpone sending h = inr refl
mails_after-IsMailed now outcome r s next_day sending h = inr refl

-- `send` either leaves the mails alone or hands over one mail, and then the recipient was claimed, its
-- campaign running, its address not suppressed, its lead neither excluded nor (where the campaign
-- stops on replies) one that has replied, the provider active and below its limit for the day, and
-- there was a text to send; and where all this holds and the provider takes the mail, it is handed
-- over.
pub send_gates :
    (now : ℕ) (outcome : Outcome) (is_final : Bool) (id : ℕ) (s : Crm) {r : Recipient}
    → find_first (λ r. r.id == id) s.recipients ≡ some r
    → (IsMailed now outcome r s (send now outcome is_final id s).1.mails
        ⊎ ((send now outcome is_final id s).1.mails ≡ s.mails))
      × ((c : Campaign) (p : EmailProvider)
          → is_sending r.status ≡ true
          → IsMailable now s r c p
          → is_taken outcome ≡ true
          → (send now outcome is_final id s).1.mails ≡ mail_of r p ∷ s.mails)
unfolding send
send_gates now outcome is_final id s {r} found = (
  elim (Bool-cases (is_sending r.status)) [
    | inr n ↦ inr (ground (arith, found, n))
    | inl y ↦
        let step : send now outcome is_final id s
            ≡ carry_out now outcome is_final r s (decide now s r) =
          ground (arith, found, y) in
        let same = carry_out_mails now outcome is_final r s (decide now s r) in
        rw (step, same)
          (mails_after-IsMailed now outcome r s (decide now s r) y (decide-Clears now s r))
  ],
  λ c p y h took.
      let step : send now outcome is_final id s
          ≡ carry_out now outcome is_final r s (decide now s r) =
        ground (arith, found, y) in
      let all = IsMailable-decide now s r h in
      let same = carry_out_mails now outcome is_final r s (ready c p) in
      rw (step, all, same) (rw (mails_after, took) refl),
)
