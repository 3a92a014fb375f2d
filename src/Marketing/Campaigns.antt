-- ===== src/Marketing/Campaigns.antt =====
-- src/modules/marketing/campaigns/campaigns.service.ts: `pause`, `resume` and `cancel`.
use notaryday_backend.Common.{
  ℕ, Bool, true, false, ◌&&◌, ◌||◌, ◌==◌, Option, none, some, find_first, update_where,
  if◌then◌else◌,
}
use notaryday_backend.Schema.{Result, ok, err, not_found, bad_request}
use notaryday_backend.Marketing.{
  Recipient, Campaign, CampaignStatus, Crm, scheduled, running, paused, campaign_cancelled,
  cancelled, is_queued, is_sending, is_running,
}

abbrev pub is_paused : CampaignStatus → Bool
is_paused paused = true
is_paused _ = false

-- `['SCHEDULED', 'RUNNING', 'PAUSED'].includes(status)`
abbrev pub is_cancellable : CampaignStatus → Bool
is_cancellable scheduled = true
is_cancellable running = true
is_cancellable paused = true
is_cancellable _ = false

abbrev pub find_campaign : ℕ → Crm → Option Campaign
find_campaign id s = find_first (λ c. c.id == id) s.campaigns

abbrev pub is_queued_of : ℕ → Recipient → Bool
is_queued_of id r = r.campaign_ref == id && is_queued r.status

abbrev pub is_open_of : ℕ → Recipient → Bool
is_open_of id r = r.campaign_ref == id && (is_queued r.status || is_sending r.status)

abbrev pub mark_queued : ℕ → CampaignStatus → Crm → Crm
mark_queued id status s = record s {
  recipients =
      update_where (is_queued_of id) (λ r. record r { campaign_status = status }) s.recipients;
}

abbrev pub cancel_open : ℕ → Crm → Crm
cancel_open id s = record s {
  recipients =
      update_where (is_open_of id)
        (λ r. record r { status = cancelled; campaign_status = campaign_cancelled }) s.recipients;
}

-- `findByIdAndUpdate`
abbrev pub update_campaign : ℕ → (Campaign → Campaign) → Crm → Crm
update_campaign id f s = record s { campaigns = update_where (λ c. c.id == id) f s.campaigns }

unfoldable pub pause : ℕ → Crm → Result Campaign × Crm
unfolding find_first update_where
pause id s = elim (find_campaign id s) [
  | none ↦ (err (not_found "Campaign not found"), s)
  | some c ↦
      if is_running c.status
      then (
        ok (record c { status = paused }),
        update_campaign id (λ c. record c { status = paused }) (mark_queued id paused s),
      )
      else (err (bad_request "Only RUNNING campaigns can be paused"), s)
]

unfoldable pub resume : ℕ → Crm → Result Campaign × Crm
unfolding find_first update_where
resume id s = elim (find_campaign id s) [
  | none ↦ (err (not_found "Campaign not found"), s)
  | some c ↦
      if is_paused c.status
      then (
        ok (record c { status = running }),
        update_campaign id (λ c. record c { status = running }) (mark_queued id running s),
      )
      else (err (bad_request "Only PAUSED campaigns can be resumed"), s)
]

unfoldable pub cancel : ℕ → ℕ → Crm → Result Campaign × Crm
unfolding find_first update_where
cancel now id s = elim (find_campaign id s) [
  | none ↦ (err (not_found "Campaign not found"), s)
  | some c ↦
      if is_cancellable c.status
      then (
        ok (record c { status = campaign_cancelled; completed_at = some now }),
        update_campaign id (λ c. record c { status = campaign_cancelled; completed_at = some now })
            (cancel_open id s),
      )
      else (err (bad_request "Cannot cancel a campaign in this status"), s)
]
