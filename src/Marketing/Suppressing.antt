-- ===== src/Marketing/Suppressing.antt =====
-- src/modules/marketing/suppressions/suppress.service.ts and
-- src/workers/marketing/services/webhook-event.service.ts.
--
-- The counters of openings and clicks and the times of the events are left out; the addresses come
-- trimmed and in lower case, as the queries make them.
use text.Mathlib.Text.{◌==◌ as str_eq}
use notaryday_backend.Common.{
  ℕ, suc, String, Bool, true, false, ◌&&◌, ◌||◌, ◌==◌, not, Option, none, some, List, [], ◌∷◌, ltb,
  is_empty, get_or, or_else, find_first, update_where, select, any, if◌then◌else◌,
}
use notaryday_backend.Marketing.{
  Recipient, Lead, Crm, sent, RecipientStatus, LeadStatus, SuppressionType, EventType, skipped,
  bounced, complained, unsubscribed, lead_unsubscribed, lead_bounced, contacted, new_lead,
  unsubscribe, bounce, complaint, manual, unsubscribed_event, bounced_event, complained_event,
  delivered, opened, clicked, sent_event, failed_event, skipped_event, replied_event,
  converted_event, is_queued, is_unsubscribed, is_bounced, log_event,
}
use notaryday_backend.Marketing.Sending.{update_recipient, update_lead, find_suppression}

abbrev pub find_lead : String → Crm → Option Lead
find_lead email s = find_first (λ l. str_eq l.email email) s.leads

-- `updateOne({ email }, { $set }, { upsert: true })`
unfoldable pub upsert_suppression : String → SuppressionType → Option String → Crm → Crm
unfolding any update_where
upsert_suppression email type reason s =
    if any (λ x. str_eq x.email email) s.suppressions
    then record s {
      suppressions =
          update_where (λ x. str_eq x.email email) (λ x. record x { type = type; reason = reason })
            s.suppressions;
    }
    else record s {
      suppressions =
          record { id = s.next_id; email = email; type = type; reason = reason } ∷ s.suppressions;
      next_id = suc s.next_id;
    }

abbrev pub set_lead_status : Option Lead → LeadStatus → Crm → Crm
set_lead_status none status s = s
set_lead_status (some l) status s = update_lead l.id (λ x. record x { status = status }) s

-- `SuppressService.create`: `none` where the address is on the list.
unfoldable pub create_suppression :
    String → Option SuppressionType → Option String → Crm → Option Crm
unfolding find_first update_where
create_suppression email type reason s = elim (find_suppression email s) [
  | some x ↦ none
  | none ↦ some (
      set_lead_status (find_lead email s) lead_unsubscribed (record s {
        suppressions =
            record { id = s.next_id; email = email; type = get_or type manual; reason = reason }
            ∷ s.suppressions;
        next_id = suc s.next_id;
      }))
]

-- `SuppressService.remove`
abbrev restore_lead : Option Lead → Crm → Crm
restore_lead none s = s
restore_lead (some l) s =
    if is_unsubscribed l.status || is_bounced l.status
    then update_lead l.id
        (λ x. record x { status = if ltb 0 l.emails_sent then contacted else new_lead }) s
    else s

unfoldable pub remove_suppression : ℕ → Crm → Option Crm
unfolding find_first select update_where
remove_suppression id s = elim (find_first (λ x. x.id == id) s.suppressions) [
  | none ↦ none
  | some x ↦ some (
      restore_lead (find_lead x.email s)
        (record s { suppressions = select (λ y. not (y.id == id)) s.suppressions }))
]

-- The queued recipients of an address are skipped.
unfoldable pub skip_queued : String → String → Crm → Crm
unfolding update_where
skip_queued email reason s = record s {
  recipients =
      update_where (λ r. str_eq r.email email && is_queued r.status)
        (λ r. record r { status = skipped; skip_reason = some reason }) s.recipients;
}

abbrev pub unsubscribed_lead : Option String → Option Lead → Crm → Crm
unsubscribed_lead token none s = s
unsubscribed_lead token (some l) s =
    update_lead l.id
      (λ x. record x { status = lead_unsubscribed; unsub_token = or_else token l.unsub_token }) s

-- `SuppressService.applyUnsubscribe`
unfoldable pub apply_unsubscribe : String → Option String → Option String → Crm → Crm
unfolding upsert_suppression skip_queued find_first update_where
apply_unsubscribe email token reason s = log_event none email unsubscribed_event (
    skip_queued email "unsubscribed"
      (unsubscribed_lead token (find_lead email s) (upsert_suppression email unsubscribe reason s)))

-- NormalizedWebhookEvent
pub record ProviderEvent : Type 0 where
  pub type : EventType
  pub message_id : Option ℕ
  pub email : String
  pub hard : Option Bool
  pub reason : Option String

abbrev pub set_lead_of : Recipient → LeadStatus → Crm → Crm
set_lead_of r status s = elim r.lead_ref [
  | none ↦ s
  | some id ↦ update_lead id (λ x. record x { status = status }) s
]

abbrev is_value : Option ℕ → ℕ → Bool
is_value none n = false
is_value (some m) n = m == n

-- What a bounce, a complaint and an unsubscription have in common.
unfoldable pub block_recipient :
    Recipient → SuppressionType → Option String → LeadStatus → String → Crm → Crm
unfolding upsert_suppression skip_queued update_where
block_recipient r type reason status word s =
    if is_empty r.email
    then s
    else skip_queued r.email word (set_lead_of r status (upsert_suppression r.email type reason s))

abbrev pub set_status : Recipient → RecipientStatus → Crm → Crm
set_status r status s =
    update_recipient r.id (λ x. record x { status = status; claimed_at = none }) s

-- The switch over the event's type.
unfoldable pub apply_event : ProviderEvent → Recipient → EventType → Crm → Crm
unfolding block_recipient update_where
apply_event e r bounced_event s =
    let noted =
      update_recipient r.id
        (λ x. record x {
          status = bounced;
          error = some (get_or e.reason "bounced");
          claimed_at = none;
        })
        s in
    if get_or e.hard true
    then block_recipient r bounce e.reason lead_bounced "bounced" noted
    else noted
apply_event e r complained_event s =
    block_recipient r complaint (some (get_or e.reason "spam complaint")) lead_unsubscribed
      "complained" (set_status r complained s)
apply_event e r unsubscribed_event s =
    block_recipient r unsubscribe (some "brevo unsubscribe") lead_unsubscribed "unsubscribed"
      (set_status r unsubscribed s)
apply_event e r delivered s = s
apply_event e r opened s = s
apply_event e r clicked s = s
apply_event e r sent_event s = s
apply_event e r failed_event s = s
apply_event e r skipped_event s = s
apply_event e r replied_event s = s
apply_event e r converted_event s = s

abbrev was_sent : RecipientStatus → Bool
was_sent sent = true
was_sent bounced = true
was_sent complained = true
was_sent _ = false

abbrev sent_before : Option ℕ → Option ℕ → Bool
sent_before _ none = false
sent_before none (some u) = true
sent_before (some t) (some u) = ltb t u

-- `sort({ sentAt: -1 })` and the first row.
unfoldable pub latest : List Recipient → Option Recipient
latest [] = none
latest (r ∷ rs) = elim (latest rs) [
  | none ↦ some r
  | some b ↦ if sent_before r.sent_at b.sent_at then some b else some r
]

abbrev by_email : String → Crm → Option Recipient
by_email email s =
    if is_empty email
    then none
    else latest (select (λ r. str_eq r.email email && was_sent r.status) s.recipients)

-- `resolveRecipient`
unfoldable pub resolve_recipient : ProviderEvent → Crm → Option Recipient
unfolding find_first select latest
resolve_recipient e s = elim e.message_id [
  | none ↦ by_email e.email s
  | some id ↦ elim (find_first (λ r. is_value r.provider_message_id id) s.recipients) [
    | none ↦ by_email e.email s
    | some r ↦ some r
  ]
]

abbrev pub is_engagement : EventType → Bool
is_engagement opened = true
is_engagement clicked = true
is_engagement _ = false

unfoldable pub process_for : Bool → ProviderEvent → Option Recipient → Crm → Crm
unfolding apply_event
process_for is_repeat e none s = log_event none e.email e.type s
process_for is_repeat e (some r) s =
    if is_repeat && is_engagement e.type
    then s
    else log_event (some r.id) e.email e.type (apply_event e r e.type s)

-- `WebhookEventService.process`; `is_repeat` tells whether the recipient has had an event of the kind
-- within two seconds (`hasRecentEvent`).
unfoldable pub process_event : Bool → ProviderEvent → Crm → Crm
unfolding resolve_recipient process_for
process_event is_repeat e s = process_for is_repeat e (resolve_recipient e s) s
