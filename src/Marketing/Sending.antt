-- ===== src/Marketing/Sending.antt =====
-- src/workers/marketing/services/send-email.service.ts: `effectiveDailyLimit` and `send`.
--
-- The gates of `send` only read, so that `decide` goes through them and `send` writes what they ask for.
-- The text of a mail (email-compose.util.ts) is left out; so are the number of the step in the reason
-- for a missing draft and the cut of an error's text after 500 characters.
use text.Mathlib.Text.{◌==◌ as str_eq}
use notaryday_backend.Common.{
  ℕ, ◌+◌, ◌*◌, ◌-◌, ◌/◌, min, String, Bool, false, ◌&&◌, ◌||◌, ◌==◌, not, Option, none, some, ◌∷◌,
  is_empty, find_first, update_where, if◌then◌else◌, leb,
}
use notaryday_backend.Marketing.{
  Recipient, Campaign, Lead, EmailProvider, Suppression, Crm, CampaignStatus, LeadStatus,
  SuppressionType, queued, sent, failed, skipped, draft, scheduled, dispatching, running, paused,
  completed, campaign_cancelled, campaign_failed, in_sequence, contacted, lead_unsubscribed,
  unsubscribe, bounce, complaint, manual, sent_event, failed_event, skipped_event, is_sending,
  is_running, is_replied, is_converted, is_unsubscribed, day_of, log_event,
}

-- `effectiveDailyLimit`: WARMUP_BASE_DAILY and WARMUP_DAILY_STEP a day since the warm-up began.
unfoldable pub effective_daily_limit : ℕ → EmailProvider → ℕ
effective_daily_limit now p =
    if p.warmup_enabled
    then elim p.warmup_started_at [
      | none ↦ p.daily_limit
      | some t ↦ min p.daily_limit (20 + (now - t) / 86400000 * 25)
    ]
    else p.daily_limit

abbrev pub is_day : ℕ → Option ℕ → Bool
is_day day none = false
is_day day (some d) = d == day

abbrev pub sent_on : ℕ → EmailProvider → ℕ
sent_on day p = if is_day day p.sent_today_date then p.sent_today else 0

pub data Gate : Type 0 where
  skip_for : String → Gate
  suppressed_for : String → Gate
  fail_for : String → Gate
  postpone : Gate
  next_day : Gate
  ready : Campaign → EmailProvider → Gate

abbrev status_text : CampaignStatus → String
status_text draft = "DRAFT"
status_text scheduled = "SCHEDULED"
status_text dispatching = "DISPATCHING"
status_text running = "RUNNING"
status_text paused = "PAUSED"
status_text completed = "COMPLETED"
status_text campaign_cancelled = "CANCELLED"
status_text campaign_failed = "FAILED"

abbrev suppressed_text : SuppressionType → String
suppressed_text unsubscribe = "suppressed (UNSUBSCRIBE)"
suppressed_text bounce = "suppressed (BOUNCE)"
suppressed_text complaint = "suppressed (COMPLAINT)"
suppressed_text manual = "suppressed (MANUAL)"

-- The lead of a recipient; one of the users' audience has none and is looked up by the address.
unfoldable pub lead_of : Crm → Recipient → Option Lead
unfolding find_first
lead_of s r = elim r.lead_ref [
  | some id ↦ find_first (λ l. l.id == id) s.leads
  | none ↦ if is_empty r.email then none else find_first (λ l. str_eq l.email r.email) s.leads
]

abbrev pub is_excluded : Option Lead → Bool
is_excluded none = false
is_excluded (some l) = l.exclude_from_send

abbrev pub has_replied : Option Lead → Bool
has_replied none = false
has_replied (some l) = is_replied l.status

unfoldable pub has_draft : Crm → Recipient → Bool
unfolding find_first
has_draft s r = elim r.lead_ref [
  | none ↦ false
  | some id ↦ elim (find_first (λ m. m.lead_ref == id && m.step == r.step) s.messages) [
    | none ↦ false
    | some m ↦ not (is_empty m.body)
  ]
]

abbrev pub find_suppression : String → Crm → Option Suppression
find_suppression email s = find_first (λ x. str_eq x.email email) s.suppressions

unfoldable pub decide_provider : ℕ → Crm → Recipient → Campaign → Gate
unfolding find_first effective_daily_limit has_draft
decide_provider now s r c = elim (find_first (λ p. p.id == r.provider_ref) s.providers) [
  | none ↦ fail_for "provider no longer exists"
  | some p ↦
      if not p.is_active
      then postpone
      else if leb (effective_daily_limit now p) (sent_on (day_of now) p)
      then next_day
      else if c.is_template || has_draft s r
      then ready c p
      else skip_for "no draft for step"
]

unfoldable pub decide_lead : ℕ → Crm → Recipient → Campaign → Option Lead → Gate
unfolding decide_provider
decide_lead now s r c lead =
    if is_excluded lead
    then skip_for "lead excluded"
    else if c.stop_on_reply && has_replied lead
    then skip_for "lead replied (stop-on-reply)"
    else decide_provider now s r c

unfoldable pub decide_running : ℕ → Crm → Recipient → Campaign → Gate
unfolding find_first decide_lead lead_of
decide_running now s r c =
    if is_empty r.email
    then decide_lead now s r c (lead_of s r)
    else elim (find_suppression r.email s) [
      | some x ↦ suppressed_for (suppressed_text x.type)
      | none ↦ decide_lead now s r c (lead_of s r)
    ]

unfoldable pub decide : ℕ → Crm → Recipient → Gate
unfolding find_first decide_running
decide now s r = elim (find_first (λ c. c.id == r.campaign_ref) s.campaigns) [
  | none ↦ skip_for "missing campaign"
  | some c ↦
      if is_running c.status then decide_running now s r c else skip_for (status_text c.status)
]

abbrev pub update_recipient : ℕ → (Recipient → Recipient) → Crm → Crm
update_recipient id f s = record s { recipients = update_where (λ r. r.id == id) f s.recipients }

abbrev pub update_lead : ℕ → (Lead → Lead) → Crm → Crm
update_lead id f s = record s { leads = update_where (λ l. l.id == id) f s.leads }

abbrev pub update_provider : ℕ → (EmailProvider → EmailProvider) → Crm → Crm
update_provider id f s = record s { providers = update_where (λ p. p.id == id) f s.providers }

unfoldable pub skip : Recipient → String → Crm → Crm
unfolding update_where
skip r reason s = log_event (some r.id) r.email skipped_event (
    update_recipient r.id
      (λ x. record x { status = skipped; skip_reason = some reason; claimed_at = none }) s)

unfoldable pub fail : Recipient → String → Crm → Crm
unfolding update_where
fail r error s = log_event (some r.id) r.email failed_event (
    update_recipient r.id (λ x. record x { status = failed; error = some error; claimed_at = none })
      s)

unfoldable pub requeue_at : Recipient → ℕ → Crm → Crm
unfolding update_where
requeue_at r t s =
    update_recipient r.id (λ x. record x { status = queued; claimed_at = none; send_at = t }) s

-- A lead that is not yet unsubscribed, of a recipient whose address is suppressed.
unfoldable pub unsubscribe_lead : Option Lead → Crm → Crm
unfolding update_where
unsubscribe_lead none s = s
unsubscribe_lead (some l) s =
    if is_unsubscribed l.status
    then s
    else update_lead l.id (λ x. record x { status = lead_unsubscribed }) s

abbrev next_status : Campaign → Lead → LeadStatus
next_status c l =
    if is_replied l.status || is_converted l.status
    then l.status
    else if c.is_sequence
    then in_sequence
    else contacted

unfoldable pub record_contact : ℕ → Campaign → Option Lead → Crm → Crm
unfolding update_where
record_contact now c none s = s
record_contact now c (some l) s =
    update_lead l.id
      (λ x. record x {
        emails_sent = x.emails_sent + 1;
        last_contacted_at = some now;
        status = next_status c l;
      })
      s

-- What the provider makes of a mail: it takes it, and the writes that follow succeed or the first of
-- them fails; or it does not take it.
pub data Outcome : Type 0 where
  taken : ℕ → Outcome
  unrecorded rejected : String → Outcome

abbrev pub hand_over : Recipient → EmailProvider → Crm → Crm
hand_over r p s = record s {
  mails = record { recipient_id = r.id; email = r.email; provider_id = p.id } ∷ s.mails;
}

unfoldable pub record_sent : ℕ → ℕ → Recipient → Campaign → EmailProvider → Option Lead → Crm → Crm
unfolding update_where record_contact
record_sent now message_id r c p lead s = log_event (some r.id) r.email sent_event (
    record_contact now c lead (
      update_provider p.id
        (λ x. record x {
          sent_today = sent_on (day_of now) p + 1;
          sent_today_date = some (day_of now);
          health_last_success_at = some now;
          health_last_error = none;
        })
        (update_recipient r.id
          (λ x. record x {
            status = sent;
            sent_at = some now;
            provider_message_id = some message_id;
            error = none;
          })
          s)))

-- The `catch` of `send`: the last attempt fails the recipient, an earlier one throws.
unfoldable pub catch_error : Bool → String → Recipient → EmailProvider → Crm → Option String × Crm
unfolding update_where fail
catch_error is_final message r p s =
    let noted = update_provider p.id (λ x. record x { health_last_error = some message }) s in
    if is_final then (none, fail r message noted) else (some message, noted)

unfoldable pub deliver :
    ℕ → Outcome → Bool → Recipient → Campaign → EmailProvider → Crm → Option String × Crm
unfolding record_sent catch_error lead_of
deliver now (taken message_id) is_final r c p s =
    (none, record_sent now message_id r c p (lead_of s r) (hand_over r p s))
deliver now (unrecorded message) is_final r c p s =
    catch_error is_final message r p (hand_over r p s)
deliver now (rejected message) is_final r c p s = catch_error is_final message r p s

-- Five past midnight of the next day, in UTC.
abbrev tomorrow : ℕ → ℕ
tomorrow now = (day_of now + 1) * 86400000 + 300000

unfoldable pub carry_out : ℕ → Outcome → Bool → Recipient → Crm → Gate → Option String × Crm
unfolding skip fail requeue_at unsubscribe_lead deliver lead_of
carry_out now outcome is_final r s (skip_for reason) = (none, skip r reason s)
carry_out now outcome is_final r s (suppressed_for reason) =
    (none, unsubscribe_lead (lead_of s r) (skip r reason s))
carry_out now outcome is_final r s (fail_for reason) = (none, fail r reason s)
carry_out now outcome is_final r s postpone = (none, requeue_at r (now + 900000) s)
carry_out now outcome is_final r s next_day = (none, requeue_at r (tomorrow now) s)
carry_out now outcome is_final r s (ready c p) = deliver now outcome is_final r c p s

-- `SendEmailService.send`: the error that it throws, if any, and the database.
unfoldable pub send : ℕ → Outcome → Bool → ℕ → Crm → Option String × Crm
unfolding find_first decide carry_out
send now outcome is_final recipient_id s =
    elim (find_first (λ r. r.id == recipient_id) s.recipients) [
      | none ↦ (none, s)
      | some r ↦
          if is_sending r.status
          then carry_out now outcome is_final r s (decide now s r)
          else (none, s)
    ]
