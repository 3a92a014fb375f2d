-- ===== src/Examples/Marketing.antt =====
-- Runs of the marketing workers (src/workers/marketing/) and of an export
-- (src/modules/marketing/csv.util.ts).
use notaryday_backend.Common.{
  count, String, ◌≡◌, ◌⊎◌, refl, true, false, some, none, Option, List, [], ◌∷◌, find_first, map,
  arith,
}
use notaryday_backend.Marketing.{
  Recipient, Campaign, EmailProvider, Crm, is_sending, sending, queued, running, unsubscribe,
}
use notaryday_backend.Marketing.Sending.{send, taken}
use notaryday_backend.Marketing.Ticks.{send_tick}
use notaryday_backend.Marketing.Gates.{IsMailed, IsMailable, is_taken, mail_of, send_gates}
use notaryday_backend.Marketing.Kept.{is_suppressed, mails_to}
use notaryday_backend.Marketing.Suppressed.{
  Call, a_send, a_tick, a_maintenance, run_all, suppressed_gets_no_mail,
}
use notaryday_backend.Marketing.Pacing.{IsPaced, send_tick-IsPaced}
use notaryday_backend.Marketing.Csv.{to_csv, read_csv}
use notaryday_backend.Marketing.CsvReading.{values_of, read_csv-to_csv}

abbrev campaign : Campaign
campaign = record {
  id = 1;
  status = running;
  is_sequence = false;
  is_template = true;
  stop_on_reply = true;
  completed_at = none;
}

abbrev recipient : Recipient
recipient = record {
  id = 2;
  campaign_ref = 1;
  lead_ref = none;
  step = 0;
  email = "eve@example.com";
  status = sending;
  campaign_status = running;
  provider_ref = 3;
  provider_message_id = none;
  send_at = 1000000;
  claimed_at = some 1000000;
  sent_at = none;
  error = none;
  skip_reason = none;
}

abbrev waiting : Recipient
waiting = record recipient { id = 4; email = "fay@example.com"; status = queued; claimed_at = none }

abbrev provider : EmailProvider
provider = record {
  id = 3;
  is_active = true;
  per_minute_limit = 2;
  daily_limit = 100;
  warmup_enabled = false;
  warmup_started_at = none;
  sent_today = 0;
  sent_today_date = none;
  health_last_error = none;
  health_last_success_at = none;
}

abbrev crm : Crm
crm = record {
  campaigns = campaign ∷ [];
  recipients = recipient ∷ waiting ∷ [];
  leads = [];
  messages = [];
  providers = provider ∷ [];
  suppressions = [];
  events = [];
  mails = [];
  send_jobs = [];
  next_id = 10;
}

send_gates_example :
    (IsMailed 1000000 (taken 8) recipient crm (send 1000000 (taken 8) false 2 crm).1.mails
      ⊎ ((send 1000000 (taken 8) false 2 crm).1.mails ≡ []))
    × ((c : Campaign) (p : EmailProvider)
        → is_sending recipient.status ≡ true
        → IsMailable 1000000 crm recipient c p
        → is_taken (taken 8) ≡ true
        → (send 1000000 (taken 8) false 2 crm).1.mails ≡ mail_of recipient p ∷ [])
unfolding find_first
send_gates_example = send_gates 1000000 (taken 8) false 2 crm {r = recipient} refl

-- The address of the claimed recipient is suppressed.
abbrev quiet_crm : Crm
quiet_crm = record crm {
  suppressions =
      record { id = 9; email = "eve@example.com"; type = unsubscribe; reason = none } ∷ [];
}

abbrev calls : List Call
calls = a_send 1000000 (taken 8) false 2 ∷ a_tick true 1000000 ∷ a_maintenance 1000000 ∷ []

suppressed_gets_no_mail_example :
    (mails_to "eve@example.com" (run_all calls quiet_crm) ≡ mails_to "eve@example.com" quiet_crm)
    × (is_suppressed "eve@example.com" (run_all calls quiet_crm) ≡ true)
unfolding is_suppressed
suppressed_gets_no_mail_example =
    suppressed_gets_no_mail "eve@example.com" calls quiet_crm refl refl

-- One of the two of a minute is claimed, and the tick may claim one more.
send_tick-IsPaced_example : IsPaced (λ _. 3) 1000000 3 2 (send_tick true 1000000 crm)
unfolding count
send_tick-IsPaced_example =
    send_tick-IsPaced true (λ _. 3) 1000000 3 2 crm ((λ e. omega arith), tt)
      (record { owned = (refl, (refl, tt)); few = omega arith })

abbrev export_rows : List (List (Option String))
export_rows = (some "name" ∷ some "say \"hi\", twice" ∷ none ∷ []) ∷ (some "b\nc" ∷ []) ∷ []

read_csv-to_csv_example : read_csv (to_csv export_rows) ≡ map values_of export_rows
read_csv-to_csv_example =
    read_csv-to_csv (some "name" ∷ some "say \"hi\", twice" ∷ none ∷ []) ((some "b\nc" ∷ []) ∷ [])
      (tt, (tt, tt))
