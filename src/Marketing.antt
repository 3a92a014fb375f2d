-- ===== src/Marketing.antt =====
-- src/modules/marketing/schemas/*.schema.ts: the documents of the marketing database that the workers
-- read and write, with the mails that leave it.
--
-- The fields that only the exports and the screens show are left out. An email address is compared
-- only; a time is in milliseconds since 1970.
pub mod Sending
pub mod Ticks
pub mod Campaigns
pub mod Stopping
pub mod Resuming
pub mod Suppressing
pub mod Gates
pub mod Kept
pub mod Suppressed
pub mod Claims
pub mod Pacing
pub mod Csv
pub mod CsvReading
use notaryday_backend.Common.{ℕ, ◌/◌, String, Bool, true, false, Option, List, ◌∷◌}

pub data RecipientStatus : Type 0 where
  queued sending sent failed skipped cancelled bounced complained unsubscribed : RecipientStatus

pub data CampaignStatus : Type 0 where
  draft scheduled dispatching running paused completed campaign_cancelled campaign_failed :
      CampaignStatus

pub data LeadStatus : Type 0 where
  new_lead needs_verification in_sequence contacted replied converted lead_unsubscribed lead_bounced
        excluded :
      LeadStatus

pub data SuppressionType : Type 0 where
  unsubscribe bounce complaint manual : SuppressionType

pub record Recipient : Type 0 where
  pub id : ℕ
  pub campaign_ref : ℕ
  pub lead_ref : Option ℕ
  pub step : ℕ
  pub email : String
  pub status : RecipientStatus
  pub campaign_status : CampaignStatus
  pub provider_ref : ℕ
  pub provider_message_id : Option ℕ
  pub send_at : ℕ
  pub claimed_at : Option ℕ
  pub sent_at : Option ℕ
  pub error : Option String
  pub skip_reason : Option String

pub record Campaign : Type 0 where
  pub id : ℕ
  pub status : CampaignStatus
  pub is_sequence : Bool
  pub is_template : Bool
  pub stop_on_reply : Bool
  pub completed_at : Option ℕ

pub record Lead : Type 0 where
  pub id : ℕ
  pub email : String
  pub status : LeadStatus
  pub exclude_from_send : Bool
  pub emails_sent : ℕ
  pub last_contacted_at : Option ℕ
  pub unsub_token : Option String

pub record LeadMessage : Type 0 where
  pub lead_ref : ℕ
  pub step : ℕ
  pub body : String

-- `sent_today_date` is the number of the day.
pub record EmailProvider : Type 0 where
  pub id : ℕ
  pub is_active : Bool
  pub per_minute_limit : ℕ
  pub daily_limit : ℕ
  pub warmup_enabled : Bool
  pub warmup_started_at : Option ℕ
  pub sent_today : ℕ
  pub sent_today_date : Option ℕ
  pub health_last_error : Option String
  pub health_last_success_at : Option ℕ

pub record Suppression : Type 0 where
  pub id : ℕ
  pub email : String
  pub type : SuppressionType
  pub reason : Option String

-- `email_events`, without the columns that only the screens show.
pub data EventType : Type 0 where
  sent_event delivered bounced_event complained_event opened clicked unsubscribed_event failed_event
        skipped_event replied_event converted_event :
      EventType

pub record EmailEvent : Type 0 where
  pub recipient_ref : Option ℕ
  pub email : String
  pub type : EventType

-- A message that a provider has taken.
pub record Mail : Type 0 where
  pub recipient_id : ℕ
  pub email : String
  pub provider_id : ℕ

pub record Crm : Type 0 where
  pub campaigns : List Campaign
  pub recipients : List Recipient
  pub leads : List Lead
  pub messages : List LeadMessage
  pub providers : List EmailProvider
  pub suppressions : List Suppression
  pub events : List EmailEvent
  pub mails : List Mail
  pub send_jobs : List ℕ
  pub next_id : ℕ

abbrev pub is_queued : RecipientStatus → Bool
is_queued queued = true
is_queued _ = false

abbrev pub is_sending : RecipientStatus → Bool
is_sending sending = true
is_sending _ = false

abbrev pub is_sent : RecipientStatus → Bool
is_sent sent = true
is_sent _ = false

abbrev pub is_running : CampaignStatus → Bool
is_running running = true
is_running _ = false

abbrev pub is_replied : LeadStatus → Bool
is_replied replied = true
is_replied _ = false

abbrev pub is_converted : LeadStatus → Bool
is_converted converted = true
is_converted _ = false

abbrev pub is_unsubscribed : LeadStatus → Bool
is_unsubscribed lead_unsubscribed = true
is_unsubscribed _ = false

abbrev pub is_bounced : LeadStatus → Bool
is_bounced lead_bounced = true
is_bounced _ = false

abbrev pub day_of : ℕ → ℕ
day_of t = t / 86400000

abbrev pub log_event : Option ℕ → String → EventType → Crm → Crm
log_event recipient_ref email type s = record s {
  events = record { recipient_ref = recipient_ref; email = email; type = type } ∷ s.events;
}
