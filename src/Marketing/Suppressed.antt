-- ===== src/Marketing/Suppressed.antt =====
-- The marketing workers together: a suppressed address gets no mail, whatever runs in whatever order.
use text.Mathlib.Text.{◌==◌ as str_eq}
use notaryday_backend.Common.{
  any-update_where, ℕ, suc, ◌≡◌, ◌∙◌, refl, ap, inl, inr, String, Bool, true, false, ◌&&◌, Option,
  none, some, List, [], ◌∷◌, is_empty, get_or, any, select, Bool-cases, Option-cases, arith,
}
use notaryday_backend.Marketing.{
  Recipient, Campaign, Lead, LeadStatus, EmailProvider, SuppressionType, EventType, Crm,
  unsubscribe, complaint, bounce, manual, lead_unsubscribed, lead_bounced, complained, unsubscribed,
  bounced, bounced_event, complained_event, unsubscribed_event, delivered, opened, clicked,
  sent_event, failed_event, skipped_event, replied_event, converted_event,
}
use notaryday_backend.Marketing.Sending.{Outcome, find_suppression, send, update_recipient}
use notaryday_backend.Marketing.Ticks.{send_tick, maintenance_tick}
use notaryday_backend.Marketing.Suppressing.{
  ProviderEvent, set_lead_status, unsubscribed_lead, find_lead, set_lead_of, set_status,
  is_engagement, upsert_suppression, create_suppression, skip_queued, apply_unsubscribe,
  block_recipient, apply_event, process_for, process_event, resolve_recipient,
}
use notaryday_backend.Marketing.Kept.{
  is_suppressed, mails_to, Keeps, Keeps-trans, SameLists, SameLists-trans, SameLists-Keeps,
  unchanged, send-Keeps, send_tick-SameLists, maintenance_tick-SameLists,
}

-- What the workers and the requests do to the database: any call but the removal of a suppression.
pub data Call : Type 0 where
  a_send : ℕ → Outcome → Bool → ℕ → Call
  a_tick : Bool → ℕ → Call
  a_maintenance : ℕ → Call
  a_provider_event : Bool → ProviderEvent → Call
  an_unsubscribe : String → Option String → Option String → Call
  a_suppression : String → Option SuppressionType → Option String → Call
  -- A call that writes other collections, as the dispatch and the pause of a campaign do.
  a_write : List Campaign → List Recipient → List Lead → List EmailProvider → Call

unfoldable pub run : Call → Crm → Crm
unfolding send send_tick maintenance_tick process_event apply_unsubscribe create_suppression
run (a_send now outcome is_final id) s = (send now outcome is_final id s).1
run (a_tick queue_up now) s = send_tick queue_up now s
run (a_maintenance now) s = maintenance_tick now s
run (a_provider_event is_repeat e) s = process_event is_repeat e s
run (an_unsubscribe email token reason) s = apply_unsubscribe email token reason s
run (a_suppression email type reason) s = get_or (create_suppression email type reason s) s
run (a_write campaigns recipients leads providers) s = record s {
  campaigns = campaigns;
  recipients = recipients;
  leads = leads;
  providers = providers;
}

unfoldable pub run_all : List Call → Crm → Crm
unfolding run
run_all [] s = s
run_all (c ∷ cs) s = run_all cs (run c s)

-- The calls that add to the list.
upsert_suppression-is_suppressed :
    (email other : String) (type : SuppressionType) (reason : Option String) (s : Crm)
    → is_suppressed email s ≡ true
    → is_suppressed email (upsert_suppression other type reason s) ≡ true
unfolding is_suppressed upsert_suppression
upsert_suppression-is_suppressed email other type reason s h =
    elim (Bool-cases (any (λ x. str_eq x.email other) s.suppressions)) [
      | inl e ↦ rw e (
          any-update_where (λ x. str_eq x.email email) (λ x. str_eq x.email other)
            (λ x. record x { type = type; reason = reason }) s.suppressions (λ x. refl)
          ∙ h)
      | inr e ↦ rw e (ground (arith, h))
    ]

upsert_suppression_mails :
    (other : String) (type : SuppressionType) (reason : Option String) (s : Crm)
    → (upsert_suppression other type reason s).mails ≡ s.mails
unfolding upsert_suppression
upsert_suppression_mails other type reason s = ground arith

-- The calls that suppress.
set_lead_status-SameLists :
    (l : Option Lead) (status : LeadStatus) (s : Crm) → SameLists s (set_lead_status l status s)
set_lead_status-SameLists none status s = record { mails = refl; suppressions = refl }
set_lead_status-SameLists (some l) status s = record { mails = refl; suppressions = refl }

unsubscribed_lead-SameLists :
    (token : Option String) (l : Option Lead) (s : Crm) → SameLists s (unsubscribed_lead token l s)
unsubscribed_lead-SameLists token none s = record { mails = refl; suppressions = refl }
unsubscribed_lead-SameLists token (some l) s = record { mails = refl; suppressions = refl }

set_lead_of-SameLists :
    (r : Recipient) (status : LeadStatus) (s : Crm) → SameLists s (set_lead_of r status s)
set_lead_of-SameLists r status s = record { mails = ground arith; suppressions = ground arith }

skip_queued-SameLists : (email reason : String) (s : Crm) → SameLists s (skip_queued email reason s)
unfolding skip_queued
skip_queued-SameLists email reason s = record { mails = refl; suppressions = refl }

upsert_suppression-Keeps :
    (email other : String) (type : SuppressionType) (reason : Option String) (s : Crm)
    → Keeps email s (upsert_suppression other type reason s)
unfolding mails_to
upsert_suppression-Keeps email other type reason s = record {
  no_mail = ap (select (λ m. str_eq m.email email)) (upsert_suppression_mails other type reason s);
  still_suppressed = upsert_suppression-is_suppressed email other type reason s;
}

create_suppression-Keeps :
    (email other : String) (type : Option SuppressionType) (reason : Option String) (s : Crm)
    → Keeps email s (get_or (create_suppression other type reason s) s)
unfolding create_suppression is_suppressed mails_to
create_suppression-Keeps email other type reason s =
    elim (Option-cases (find_suppression other s)) [
      | inr (x, e) ↦ rw (get_or, e) (record { no_mail = refl; still_suppressed = λ h. h })
      | inl e ↦
          rw (get_or, e)
            (Keeps-trans
              {t = record s {
                suppressions =
                    record {
                      id = s.next_id;
                      email = other;
                      type = get_or type manual;
                      reason = reason;
                    }
                    ∷ s.suppressions;
                next_id = suc s.next_id;
              }}
              (record { no_mail = refl; still_suppressed = λ h. ground (arith, h) })
              (SameLists-Keeps email
                (set_lead_status-SameLists (find_lead other s) lead_unsubscribed _)))
    ]

apply_unsubscribe-Keeps :
    (email other : String) (token reason : Option String) (s : Crm)
    → Keeps email s (apply_unsubscribe other token reason s)
unfolding apply_unsubscribe skip_queued
apply_unsubscribe-Keeps email other token reason s =
    let added = upsert_suppression other unsubscribe reason s in
    let lead = unsubscribed_lead-SameLists token (find_lead other s) added in
    Keeps-trans (upsert_suppression-Keeps email other unsubscribe reason s)
      (SameLists-Keeps email (record { mails = lead.mails; suppressions = lead.suppressions }))

block_recipient-Keeps :
    (email : String) (r : Recipient) (type : SuppressionType) (reason : Option String)
    (status : LeadStatus) (word : String) (s : Crm)
    → Keeps email s (block_recipient r type reason status word s)
unfolding block_recipient
block_recipient-Keeps email r type reason status word s = elim (Bool-cases (is_empty r.email)) [
  | inl e ↦ rw e (SameLists-Keeps email (record { mails = refl; suppressions = refl }))
  | inr e ↦ rw e (
      Keeps-trans (upsert_suppression-Keeps email r.email type reason s) (
        SameLists-Keeps email (
          SameLists-trans (set_lead_of-SameLists r status _)
            (skip_queued-SameLists r.email word _))))
]

apply_event-Keeps :
    (email : String) (e : ProviderEvent) (r : Recipient) (type : EventType) (s : Crm)
    → Keeps email s (apply_event e r type s)
unfolding apply_event
apply_event-Keeps email e r bounced_event s =
    let noted =
      update_recipient r.id
        (λ x. record x {
          status = bounced;
          error = some (get_or e.reason "bounced");
          claimed_at = none;
        })
        s in
    let start : Keeps email s noted =
      SameLists-Keeps email (record { mails = refl; suppressions = refl }) in
    elim (Bool-cases (get_or e.hard true)) [
      | inl h ↦ rw h (
          Keeps-trans start
            (block_recipient-Keeps email r bounce e.reason lead_bounced "bounced" noted))
      | inr h ↦ rw h start
    ]
apply_event-Keeps email e r complained_event s =
    Keeps-trans (SameLists-Keeps email (record { mails = refl; suppressions = refl })) (
      block_recipient-Keeps email r complaint _ lead_unsubscribed "complained"
        (set_status r complained s))
apply_event-Keeps email e r unsubscribed_event s =
    Keeps-trans (SameLists-Keeps email (record { mails = refl; suppressions = refl })) (
      block_recipient-Keeps email r unsubscribe _ lead_unsubscribed "unsubscribed"
        (set_status r unsubscribed s))
apply_event-Keeps email e r delivered s = unchanged email s
apply_event-Keeps email e r opened s = unchanged email s
apply_event-Keeps email e r clicked s = unchanged email s
apply_event-Keeps email e r sent_event s = unchanged email s
apply_event-Keeps email e r failed_event s = unchanged email s
apply_event-Keeps email e r skipped_event s = unchanged email s
apply_event-Keeps email e r replied_event s = unchanged email s
apply_event-Keeps email e r converted_event s = unchanged email s

process_event-Keeps :
    (email : String) (is_repeat : Bool) (e : ProviderEvent) (s : Crm)
    → Keeps email s (process_event is_repeat e s)
unfolding process_event process_for
process_event-Keeps email is_repeat e s = elim (Option-cases (resolve_recipient e s)) [
  | inl h ↦ rw h (SameLists-Keeps email (record { mails = refl; suppressions = refl }))
  | inr (r, h) ↦ elim (Bool-cases (is_repeat && is_engagement e.type)) [
    | inl k ↦ rw (h, k) (unchanged email s)
    | inr k ↦
        rw (h, k)
          (Keeps-trans (apply_event-Keeps email e r e.type s)
            (SameLists-Keeps email (record { mails = refl; suppressions = refl })))
  ]
]

run-Keeps :
    (email : String) (call : Call) (s : Crm)
    → is_empty email ≡ false
    → is_suppressed email s ≡ true
    → Keeps email s (run call s)
unfolding run
run-Keeps email (a_send now outcome is_final id) s full listed =
    send-Keeps email now outcome is_final id s full listed
run-Keeps email (a_tick queue_up now) s full listed =
    SameLists-Keeps email (send_tick-SameLists queue_up now s)
run-Keeps email (a_maintenance now) s full listed =
    SameLists-Keeps email (maintenance_tick-SameLists now s)
run-Keeps email (a_provider_event is_repeat e) s full listed =
    process_event-Keeps email is_repeat e s
run-Keeps email (an_unsubscribe other token reason) s full listed =
    apply_unsubscribe-Keeps email other token reason s
run-Keeps email (a_suppression other type reason) s full listed =
    create_suppression-Keeps email other type reason s
run-Keeps email (a_write campaigns recipients leads providers) s full listed =
    SameLists-Keeps email (record { mails = refl; suppressions = refl })

-- Once an address is on the suppression list, no mail goes to it, whatever calls follow in whatever
-- order, unless the suppression is removed, and it stays on the list: sends with any outcome, ticks,
-- events of the providers, other suppressions, and any rewriting of campaigns, recipients, leads and
-- providers.
pub suppressed_gets_no_mail :
    (email : String) (calls : List Call) (s : Crm)
    → is_empty email ≡ false
    → is_suppressed email s ≡ true
    → (mails_to email (run_all calls s) ≡ mails_to email s)
      × (is_suppressed email (run_all calls s) ≡ true)
unfolding run_all
suppressed_gets_no_mail email [] s full listed = (refl, listed)
suppressed_gets_no_mail email (c ∷ cs) s full listed =
    let one = run-Keeps email c s full listed in
    let (rest, kept) =
      suppressed_gets_no_mail email cs (run c s) full (one.still_suppressed listed) in
    (rest ∙ one.no_mail, kept)
