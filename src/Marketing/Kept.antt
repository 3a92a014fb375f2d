-- ===== src/Marketing/Kept.antt =====
-- What a send and the ticks leave of the mails to an address and of the suppression list.
use text.Mathlib.Text.{◌==◌ as str_eq}
use text.Mathlib.TextEquality.{eq_iff}
use notaryday_backend.Common.{
  count, ℕ, ◌≡◌, ◌∙◌, refl, sym, subst, ap, inl, inr, String, Bool, true, false, ◌||◌, ◌==◌, Option,
  none, List, [], ◌∷◌, is_empty, find_first, any, select, Bool-cases, Option-cases, arith, leb,
}
use notaryday_backend.Marketing.{Recipient, Campaign, Lead, EmailProvider, Mail, Crm, day_of}
use notaryday_backend.Marketing.Sending.{
  Gate, skip_for, suppressed_for, fail_for, postpone, next_day, ready, Outcome, skip, fail,
  requeue_at, unsubscribe_lead, record_sent, record_contact, catch_error, deliver, carry_out,
  decide, effective_daily_limit, sent_on, send, lead_of,
}
use notaryday_backend.Marketing.Ticks.{
  claim, claim_all, roll_over, tick_provider, tick_providers, send_tick, requeue_stale,
  complete_campaigns, maintenance_tick, due_rows, in_window,
}
use notaryday_backend.Marketing.Gates.{send_gates, IsMailed}

unfoldable pub is_suppressed : String → Crm → Bool
unfolding any
is_suppressed email s = any (λ x. str_eq x.email email) s.suppressions

unfoldable pub mails_to : String → Crm → List Mail
unfolding select
mails_to email s = select (λ m. str_eq m.email email) s.mails

-- No mail goes to the address, and a suppressed address stays suppressed.
pub record Keeps (email : String) (s t : Crm) : Type 0 where
  pub no_mail : mails_to email t ≡ mails_to email s
  pub still_suppressed : is_suppressed email s ≡ true → is_suppressed email t ≡ true

pub Keeps-trans :
    {email : String} {s t u : Crm} → Keeps email s t → Keeps email t u → Keeps email s u
Keeps-trans h k = record {
  no_mail = k.no_mail ∙ h.no_mail;
  still_suppressed = λ e. k.still_suppressed (h.still_suppressed e);
}

pub unchanged : (email : String) (s : Crm) → Keeps email s s
unchanged email s = record { no_mail = refl; still_suppressed = λ h. h }

-- The mails and the list of suppressions are as before.
pub record SameLists (s t : Crm) : Type 0 where
  pub mails : t.mails ≡ s.mails
  pub suppressions : t.suppressions ≡ s.suppressions

pub SameLists-trans : {s t u : Crm} → SameLists s t → SameLists t u → SameLists s u
SameLists-trans h k = record {
  mails = k.mails ∙ h.mails;
  suppressions = k.suppressions ∙ h.suppressions;
}

pub SameLists-Keeps : (email : String) {s t : Crm} → SameLists s t → Keeps email s t
unfolding mails_to is_suppressed
SameLists-Keeps email h = record {
  no_mail = ap (select (λ m. str_eq m.email email)) h.mails;
  still_suppressed =
      λ e. subst (λ xs. any (λ x. str_eq x.email email) xs ≡ true) (sym h.suppressions) e;
}

any_found : {A : Type 0} (q : A → Bool) (xs : List A) → find_first q xs ≡ none → any q xs ≡ false
unfolding any find_first
any_found q [] h = refl
any_found q (x ∷ xs) h = elim (Bool-cases (q x)) [
  | inl e ↦ absurd (ground (arith, rw e at h))
  | inr e ↦ rw e (any_found q xs (rw e at h))
]

unsubscribe_lead_suppressions :
    (l : Option Lead) (s : Crm) → (unsubscribe_lead l s).suppressions ≡ s.suppressions
unfolding unsubscribe_lead
unsubscribe_lead_suppressions l s = ground arith

deliver_suppressions :
    (now : ℕ) (outcome : Outcome) (is_final : Bool) (r : Recipient) (c : Campaign)
    (p : EmailProvider) (s : Crm)
    → (deliver now outcome is_final r c p s).1.suppressions ≡ s.suppressions
unfolding deliver record_sent record_contact catch_error fail
deliver_suppressions now outcome is_final r c p s = ground arith

carry_out_suppressions :
    (now : ℕ) (outcome : Outcome) (is_final : Bool) (r : Recipient) (s : Crm) (g : Gate)
    → (carry_out now outcome is_final r s g).1.suppressions ≡ s.suppressions
unfolding carry_out skip fail requeue_at
carry_out_suppressions now outcome is_final r s (skip_for _) = refl
carry_out_suppressions now outcome is_final r s (suppressed_for reason) =
    unsubscribe_lead_suppressions (lead_of s r) (skip r reason s)
carry_out_suppressions now outcome is_final r s (fail_for _) = refl
carry_out_suppressions now outcome is_final r s postpone = refl
carry_out_suppressions now outcome is_final r s next_day = refl
carry_out_suppressions now outcome is_final r s (ready c p) =
    deliver_suppressions now outcome is_final r c p s

send_suppressions :
    (now : ℕ) (outcome : Outcome) (is_final : Bool) (id : ℕ) (s : Crm)
    → (send now outcome is_final id s).1.suppressions ≡ s.suppressions
unfolding send
send_suppressions now outcome is_final id s =
    elim (Option-cases (find_first (λ r. r.id == id) s.recipients)) [
      | inl e ↦ ground (arith, e)
      | inr (r, e) ↦
          ground (arith, e, carry_out_suppressions now outcome is_final r s (decide now s r))
    ]

-- A mail that is handed over does not go to a suppressed address.
IsMailed-mails :
    (email : String) (now : ℕ) (outcome : Outcome) (r : Recipient) (s : Crm) (mails : List Mail)
    → is_empty email ≡ false
    → is_suppressed email s ≡ true
    → IsMailed now outcome r s mails
    → select (λ m. str_eq m.email email) mails ≡ mails_to email s
unfolding mails_to is_suppressed select
IsMailed-mails email now outcome r s mails full listed h =
    let one = h.one_mail in
    elim (Bool-cases (str_eq r.email email)) [
      | inr e ↦ rw (one, e) refl
      | inl e ↦
          let same : r.email ≡ email = (eq_iff r.email email).0 e in
          let absent : find_first (λ x. str_eq x.email email) s.suppressions ≡ none =
            rw same at (h.mailable.not_suppressed (ap is_empty same ∙ full)) in
          absurd
            (ground (arith, any_found (λ x. str_eq x.email email) s.suppressions absent, listed))
    ]

send_missing :
    (now : ℕ) (outcome : Outcome) (is_final : Bool) (id : ℕ) (s : Crm)
    → find_first (λ r. r.id == id) s.recipients ≡ none
    → (send now outcome is_final id s).1.mails ≡ s.mails
unfolding send
send_missing now outcome is_final id s e = rw (send, e) refl

pub send-Keeps :
    (email : String) (now : ℕ) (outcome : Outcome) (is_final : Bool) (id : ℕ) (s : Crm)
    → is_empty email ≡ false
    → is_suppressed email s ≡ true
    → Keeps email s (send now outcome is_final id s).1
unfolding mails_to is_suppressed
send-Keeps email now outcome is_final id s full listed =
    let kept = send_suppressions now outcome is_final id s in
    elim (Option-cases (find_first (λ r. r.id == id) s.recipients)) [
      | inl e ↦
          SameLists-Keeps email
            (record { mails = send_missing now outcome is_final id s e; suppressions = kept })
      | inr (r, e) ↦ elim ((send_gates now outcome is_final id s e).0) [
        | inr same ↦ SameLists-Keeps email (record { mails = same; suppressions = kept })
        | inl m ↦ record {
          no_mail = IsMailed-mails email now outcome r s _ full listed m;
          still_suppressed =
              λ k. subst (λ xs. any (λ x. str_eq x.email email) xs ≡ true) (sym kept) k;
        }
      ]
    ]

-- The ticks.
claim-SameLists : (queue_up : Bool) (now id : ℕ) (s : Crm) → SameLists s (claim queue_up now id s)
unfolding claim
claim-SameLists queue_up now id s = record { mails = ground arith; suppressions = ground arith }

claim_all-SameLists :
    (queue_up : Bool) (now : ℕ) (rs : List Recipient) (s : Crm)
    → SameLists s (claim_all queue_up now rs s)
unfolding claim_all
claim_all-SameLists queue_up now [] s = record { mails = refl; suppressions = refl }
claim_all-SameLists queue_up now (r ∷ rs) s =
    SameLists-trans (claim-SameLists queue_up now r.id s)
      (claim_all-SameLists queue_up now rs (claim queue_up now r.id s))

roll_over-SameLists : (now : ℕ) (p : EmailProvider) (s : Crm) → SameLists s (roll_over now p s)
unfolding roll_over
roll_over-SameLists now p s = record { mails = ground arith; suppressions = ground arith }

tick_provider-SameLists :
    (queue_up : Bool) (now : ℕ) (p : EmailProvider) (s : Crm)
    → SameLists s (tick_provider queue_up now p s)
unfolding tick_provider
tick_provider-SameLists queue_up now p s =
    let rolled = roll_over-SameLists now p s in
    let claimed =
      claim_all-SameLists queue_up now (due_rows now p s.recipients) (roll_over now p s) in
    elim (Bool-cases (
      leb (effective_daily_limit now p) (sent_on (day_of now) p)
      || leb p.per_minute_limit (count (in_window now p.id) s.recipients))) [
        | inl e ↦ rw e rolled
        | inr e ↦ rw e (SameLists-trans rolled claimed)
      ]

tick_providers-SameLists :
    (queue_up : Bool) (now : ℕ) (ps : List EmailProvider) (s : Crm)
    → SameLists s (tick_providers queue_up now ps s)
unfolding tick_providers
tick_providers-SameLists queue_up now [] s = record { mails = refl; suppressions = refl }
tick_providers-SameLists queue_up now (p ∷ ps) s =
    SameLists-trans (tick_provider-SameLists queue_up now p s)
      (tick_providers-SameLists queue_up now ps (tick_provider queue_up now p s))

pub send_tick-SameLists :
    (queue_up : Bool) (now : ℕ) (s : Crm) → SameLists s (send_tick queue_up now s)
unfolding send_tick
send_tick-SameLists queue_up now s =
    tick_providers-SameLists queue_up now (select (λ p. p.is_active) s.providers) s

pub maintenance_tick-SameLists : (now : ℕ) (s : Crm) → SameLists s (maintenance_tick now s)
unfolding maintenance_tick requeue_stale complete_campaigns
maintenance_tick-SameLists now s = record { mails = refl; suppressions = refl }
