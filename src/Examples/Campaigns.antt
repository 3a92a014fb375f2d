-- ===== src/Examples/Campaigns.antt =====
-- Runs of a campaign that is paused, resumed and cancelled
-- (src/modules/marketing/campaigns/campaigns.service.ts).
use notaryday_backend.Common.{
  ◌≡◌, ◌==◌, any, refl, true, false, none, some, List, [], ◌∷◌, find_first,
}
use notaryday_backend.Schema.{ok}
use notaryday_backend.Marketing.{
  Recipient, Campaign, EmailProvider, Crm, running, sending, queued, skipped,
}
use notaryday_backend.Marketing.Sending.{send, taken}
use notaryday_backend.Marketing.Ticks.{maintenance_tick, complete_campaigns, requeue_stale}
use notaryday_backend.Marketing.Campaigns.{pause, resume, find_campaign}
use notaryday_backend.Marketing.Stopping.{
  WorkerCall, a_maintenance, work, work_all, stop, by_pause, stopped_mails_nobody,
}
use notaryday_backend.Marketing.Resuming.{resume-pause, claimed_at_pause_skipped}

abbrev campaign : Campaign
campaign = record {
  id = 1;
  status = running;
  is_sequence = false;
  is_template = true;
  stop_on_reply = true;
  completed_at = none;
}

abbrev claimed_recipient : Recipient
claimed_recipient = record {
  id = 2;
  campaign_ref = 1;
  lead_ref = none;
  step = 1;
  email = "eve@example.com";
  status = sending;
  campaign_status = running;
  provider_ref = 3;
  provider_message_id = none;
  send_at = 1000000;
  claimed_at = some 1000000;
  sent_at = none;
  error = none;
  skip_reason = none;
}

abbrev waiting_recipient : Recipient
waiting_recipient = record claimed_recipient { id = 4; status = queued; claimed_at = none }

abbrev provider : EmailProvider
provider = record {
  id = 3;
  is_active = true;
  per_minute_limit = 2;
  daily_limit = 100;
  warmup_enabled = false;
  warmup_started_at = none;
  sent_today = 0;
  sent_today_date = none;
  health_last_error = none;
  health_last_success_at = none;
}

abbrev crm : Crm
crm = record {
  campaigns = campaign ∷ [];
  recipients = claimed_recipient ∷ waiting_recipient ∷ [];
  leads = [];
  messages = [];
  providers = provider ∷ [];
  suppressions = [];
  events = [];
  mails = [];
  send_jobs = [];
  next_id = 10;
}

abbrev calls : List WorkerCall
calls = a_maintenance 1000000 ∷ []

stopped_mails_nobody_example :
    (send 1000000 (taken 8) false 2 (work_all calls (stop by_pause 1 crm).1)).1.mails
    ≡ (work_all calls (stop by_pause 1 crm).1).mails
unfolding find_first stop pause work_all work maintenance_tick complete_campaigns requeue_stale any
stopped_mails_nobody_example =
    stopped_mails_nobody by_pause 1 calls 1000000 (taken 8) false 2 crm {r = claimed_recipient} refl
      refl refl

resume-pause_example : resume 1 (pause 1 crm).1 ≡ (ok campaign, crm)
unfolding find_first
resume-pause_example =
    resume-pause 1 crm campaign refl refl ((λ _. refl), tt) ((λ _. refl), ((λ _. refl), tt))

claimed_at_pause_skipped_example :
    (find_first
        (λ x. x.id == 2)
        (resume 1 (send 1000000 (taken 8) false 2 (pause 1 crm).1).1).1.recipients
      ≡ some (record claimed_recipient {
        status = skipped;
        skip_reason = some "PAUSED";
        claimed_at = none;
      }))
    × ((resume 1 (send 1000000 (taken 8) false 2 (pause 1 crm).1).1).1.mails ≡ [])
    × (find_campaign 1 (resume 1 (send 1000000 (taken 8) false 2 (pause 1 crm).1).1).1
        ≡ some campaign)
unfolding find_first
claimed_at_pause_skipped_example =
    claimed_at_pause_skipped 1 crm campaign refl refl 2 {r = claimed_recipient} refl refl refl
      1000000 (taken 8) false
