-- ===== src/Marketing/Stopping.antt =====
-- src/modules/marketing/campaigns/campaigns.service.ts: a stopped campaign mails nobody.
use mathlib.Core.Bool.{false≢true}
use notaryday_backend.Common.{
  ℕ, ◌≡◌, refl, sym, ◌∙◌, subst, Bool, true, false, ◌&&◌, ◌||◌, ◌==◌, not, Option, some, List, [],
  ◌∷◌, find_first, any, All, Bool-cases, Option-cases, inl, inr, arith, update_where-All,
  find_first-All, find_first_sound, All-updated, leb, count,
}
use notaryday_backend.Schema.{Result, ok}
use notaryday_backend.Marketing.{
  Recipient, Campaign, EmailProvider, Lead, Crm, is_running, is_sending, day_of, paused,
  campaign_cancelled, completed,
}
use notaryday_backend.Marketing.Sending.{
  Gate, skip_for, suppressed_for, fail_for, postpone, next_day, ready, Outcome, skip, fail,
  requeue_at, unsubscribe_lead, record_sent, record_contact, catch_error, deliver, carry_out,
  decide, effective_daily_limit, sent_on, send, lead_of,
}
use notaryday_backend.Marketing.Ticks.{
  claim, claim_all, roll_over, tick_provider, tick_providers, send_tick, requeue_stale,
  complete_campaigns, is_active_of, maintenance_tick, due_rows, in_window,
}
use notaryday_backend.Marketing.Gates.{send_gates}
use notaryday_backend.Marketing.Campaigns.{pause, cancel, find_campaign, is_cancellable}

-- No row of the campaign is running.
abbrev pub IsStopped : ℕ → Crm → Type 0
IsStopped id s = All (λ c. (c.id == id) ≡ true → is_running c.status ≡ false) s.campaigns

-- What the workers do.
pub data WorkerCall : Type 0 where
  a_send : ℕ → Outcome → Bool → ℕ → WorkerCall
  a_tick : Bool → ℕ → WorkerCall
  a_maintenance : ℕ → WorkerCall

unfoldable pub work : WorkerCall → Crm → Crm
unfolding send send_tick maintenance_tick
work (a_send now outcome is_final id) s = (send now outcome is_final id s).1
work (a_tick queue_up now) s = send_tick queue_up now s
work (a_maintenance now) s = maintenance_tick now s

unfoldable pub work_all : List WorkerCall → Crm → Crm
unfolding work
work_all [] s = s
work_all (c ∷ cs) s = work_all cs (work c s)

unsubscribe_lead_campaigns :
    (l : Option Lead) (s : Crm) → (unsubscribe_lead l s).campaigns ≡ s.campaigns
unfolding unsubscribe_lead
unsubscribe_lead_campaigns l s = ground arith

deliver_campaigns :
    (now : ℕ) (outcome : Outcome) (is_final : Bool) (r : Recipient) (c : Campaign)
    (p : EmailProvider) (s : Crm)
    → (deliver now outcome is_final r c p s).1.campaigns ≡ s.campaigns
unfolding deliver record_sent record_contact catch_error fail
deliver_campaigns now outcome is_final r c p s = ground arith

carry_out_campaigns :
    (now : ℕ) (outcome : Outcome) (is_final : Bool) (r : Recipient) (s : Crm) (g : Gate)
    → (carry_out now outcome is_final r s g).1.campaigns ≡ s.campaigns
unfolding carry_out skip fail requeue_at
carry_out_campaigns now outcome is_final r s (skip_for _) = refl
carry_out_campaigns now outcome is_final r s (suppressed_for reason) =
    unsubscribe_lead_campaigns (lead_of s r) (skip r reason s)
carry_out_campaigns now outcome is_final r s (fail_for _) = refl
carry_out_campaigns now outcome is_final r s postpone = refl
carry_out_campaigns now outcome is_final r s next_day = refl
carry_out_campaigns now outcome is_final r s (ready c p) =
    deliver_campaigns now outcome is_final r c p s

send_campaigns :
    (now : ℕ) (outcome : Outcome) (is_final : Bool) (id : ℕ) (s : Crm)
    → (send now outcome is_final id s).1.campaigns ≡ s.campaigns
unfolding send
send_campaigns now outcome is_final id s =
    elim (Option-cases (find_first (λ r. r.id == id) s.recipients)) [
      | inl e ↦ rw (send, e) refl
      | inr (r, e) ↦ elim (Bool-cases (is_sending r.status)) [
        | inl d ↦ rw (send, e, d) (carry_out_campaigns now outcome is_final r s (decide now s r))
        | inr d ↦ rw (send, e, d) refl
      ]
    ]

claim_campaigns :
    (queue_up : Bool) (now id : ℕ) (s : Crm) → (claim queue_up now id s).campaigns ≡ s.campaigns
unfolding claim
claim_campaigns queue_up now id s = ground arith

claim_all_campaigns :
    (queue_up : Bool) (now : ℕ) (rs : List Recipient) (s : Crm)
    → (claim_all queue_up now rs s).campaigns ≡ s.campaigns
unfolding claim_all
claim_all_campaigns queue_up now [] s = refl
claim_all_campaigns queue_up now (r ∷ rs) s =
    claim_all_campaigns queue_up now rs (claim queue_up now r.id s)
    ∙ claim_campaigns queue_up now r.id s

roll_over_campaigns :
    (now : ℕ) (p : EmailProvider) (s : Crm) → (roll_over now p s).campaigns ≡ s.campaigns
unfolding roll_over
roll_over_campaigns now p s = ground arith

tick_providers_campaigns :
    (queue_up : Bool) (now : ℕ) (ps : List EmailProvider) (s : Crm)
    → (tick_providers queue_up now ps s).campaigns ≡ s.campaigns
unfolding tick_providers tick_provider
tick_providers_campaigns queue_up now [] s = refl
tick_providers_campaigns queue_up now (p ∷ ps) s =
    tick_providers_campaigns queue_up now ps (tick_provider queue_up now p s)
    ∙ tick_provider_campaigns
  where
    tick_provider_campaigns : (tick_provider queue_up now p s).campaigns ≡ s.campaigns
    tick_provider_campaigns =
        elim (Bool-cases (
          leb (effective_daily_limit now p) (sent_on (day_of now) p)
          || leb p.per_minute_limit (count (in_window now p.id) s.recipients))) [
            | inl e ↦ rw e (roll_over_campaigns now p s)
            | inr e ↦ rw e (
                claim_all_campaigns queue_up now (due_rows now p s.recipients) (roll_over now p s)
                ∙ roll_over_campaigns now p s)
          ]

work-IsStopped : (id : ℕ) (c : WorkerCall) (s : Crm) → IsStopped id s → IsStopped id (work c s)
unfolding work send_tick maintenance_tick complete_campaigns requeue_stale
work-IsStopped id (a_send now outcome is_final r) s h =
    rw (send_campaigns now outcome is_final r s) h
work-IsStopped id (a_tick queue_up now) s h = rw (tick_providers_campaigns queue_up now _ s) h
work-IsStopped id (a_maintenance now) s h =
    update_where-All (λ c. (c.id == id) ≡ true → is_running c.status ≡ false)
      (λ c. is_running c.status && not (any (is_active_of c.id) (requeue_stale now s).recipients))
      (λ c. record c { status = completed; completed_at = some now }) s.campaigns
      (λ c e k same. refl) h

work_all-IsStopped :
    (id : ℕ) (cs : List WorkerCall) (s : Crm) → IsStopped id s → IsStopped id (work_all cs s)
unfolding work_all
work_all-IsStopped id [] s h = h
work_all-IsStopped id (c ∷ cs) s h = work_all-IsStopped id cs (work c s) (work-IsStopped id c s h)

-- A send of a recipient whose campaign does not run.
send-IsStopped :
    (now : ℕ) (outcome : Outcome) (is_final : Bool) (id : ℕ) (s : Crm) {r : Recipient}
    → find_first (λ r. r.id == id) s.recipients ≡ some r
    → IsStopped r.campaign_ref s
    → (send now outcome is_final id s).1.mails ≡ s.mails
send-IsStopped now outcome is_final id s {r} found h =
    let (gates, _) = send_gates now outcome is_final id s found in
    elim gates [
      | inr same ↦ same
      | inl m ↦
          let known = m.mailable.campaign in
          let runs = m.mailable.campaign_runs in
          let mine = find_first_sound (λ c. c.id == r.campaign_ref) s.campaigns known in
          let stopped =
            find_first-All (λ c. (c.id == r.campaign_ref) ≡ true → is_running c.status ≡ false)
              (λ c. c.id == r.campaign_ref) s.campaigns known h mine in
          absurd (false≢true (sym stopped ∙ runs))
    ]

-- The two requests that stop a campaign.
pub data Stop : Type 0 where
  by_pause : Stop
  by_cancel : ℕ → Stop

unfoldable pub stop : Stop → ℕ → Crm → Result Campaign × Crm
unfolding pause cancel
stop by_pause id s = pause id s
stop (by_cancel now) id s = cancel now id s

stop-IsStopped :
    (how : Stop) (id : ℕ) (s : Crm) {v : Campaign}
    → (stop how id s).0 ≡ ok v
    → IsStopped id (stop how id s).1
unfolding stop pause cancel
stop-IsStopped by_pause id s h = elim (Option-cases (find_campaign id s)) [
  | inl e ↦ let refused = rw (stop, pause, e) at h in cc
  | inr (c, e) ↦ elim (Bool-cases (is_running c.status)) [
    | inr d ↦ let refused = rw (stop, pause, e, d) at h in cc
    | inl d ↦
        rw (stop, pause, e, d)
          (All-updated _ (λ c. c.id == id) (λ c. record c { status = paused }) s.campaigns
            (λ a k _. refl) (λ a k m. absurd (false≢true (sym k ∙ m))))
  ]
]
stop-IsStopped (by_cancel now) id s h = elim (Option-cases (find_campaign id s)) [
  | inl e ↦ let refused = rw (stop, cancel, e) at h in cc
  | inr (c, e) ↦ elim (Bool-cases (is_cancellable c.status)) [
    | inr d ↦ let refused = rw (stop, cancel, e, d) at h in cc
    | inl d ↦
        rw (stop, cancel, e, d)
          (All-updated _ (λ c. c.id == id)
            (λ c. record c { status = campaign_cancelled; completed_at = some now }) s.campaigns
            (λ a k _. refl) (λ a k m. absurd (false≢true (sym k ∙ m))))
  ]
]

-- Once a campaign is paused or cancelled, no send hands over a mail for one of its recipients, however
-- many sends, send ticks and maintenance ticks of the workers have run since, in whatever order and
-- with whatever outcomes.
pub stopped_mails_nobody :
    (how : Stop) (id : ℕ) (calls : List WorkerCall) (now : ℕ) (outcome : Outcome) (is_final : Bool)
    (recipient_id : ℕ) (s : Crm) {v : Campaign} {r : Recipient}
    → (stop how id s).0 ≡ ok v
    → let t = work_all calls (stop how id s).1 in
      find_first (λ x. x.id == recipient_id) t.recipients ≡ some r
      → r.campaign_ref ≡ id
      → (send now outcome is_final recipient_id t).1.mails ≡ t.mails
stopped_mails_nobody how id calls now outcome is_final recipient_id s {v} {r} done found mine =
    let t = work_all calls (stop how id s).1 in
    let stopped = work_all-IsStopped id calls (stop how id s).1 (stop-IsStopped how id s done) in
    send-IsStopped now outcome is_final recipient_id t found
      (subst (λ n. IsStopped n t) (sym mine) stopped)
