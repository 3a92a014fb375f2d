-- ===== src/Marketing/Ticks.antt =====
-- src/workers/marketing/crons/send-tick.service.ts and maintenance-tick.service.ts (the recipients and
-- the campaigns).
--
-- A tick runs alone (`busy`), and its clock stands still. `queue_up` tells whether the queue takes a
-- job; a recipient whose job is lost stays claimed.
use notaryday_backend.Common.{
  ℕ, ◌-◌, min, Bool, false, ◌&&◌, ◌||◌, ◌==◌, not, Option, none, some, List, [], ◌∷◌, update_where,
  select, count, sort_by, slice, any, if◌then◌else◌, leb, ltb,
}
use notaryday_backend.Marketing.{
  Recipient, EmailProvider, Crm, queued, sending, completed, is_queued, is_sending, is_sent,
  is_running, day_of,
}
use notaryday_backend.Marketing.Sending.{effective_daily_limit, is_day, sent_on, update_provider}

-- `field: { $gte: t }`, which a missing field does not meet.
abbrev since : ℕ → Option ℕ → Bool
since t none = false
since t (some u) = leb t u

-- The recipients that count for the pace of the last minute.
abbrev pub in_window : ℕ → ℕ → Recipient → Bool
in_window now provider_id r =
    r.provider_ref == provider_id
    && ((is_sending r.status || is_sent r.status)
        && (since (now - 60000) r.sent_at || since (now - 60000) r.claimed_at))

abbrev pub is_due : ℕ → ℕ → Recipient → Bool
is_due now provider_id r =
    is_queued r.status
    && (is_running r.campaign_status && (leb r.send_at now && r.provider_ref == provider_id))

-- `sort({ sendAt: 1 })`
unfoldable pub sort_by_send_at : List Recipient → List Recipient
unfolding sort_by
sort_by_send_at = sort_by (λ r x. leb r.send_at x.send_at)

abbrev pub is_claimable : ℕ → Recipient → Bool
is_claimable id r = r.id == id && is_queued r.status

-- `findOneAndUpdate({ _id, status: 'QUEUED' })` changes one row at most.
unfoldable pub claim_row : ℕ → ℕ → List Recipient → List Recipient
claim_row now id [] = []
claim_row now id (r ∷ rs) =
    let rest = claim_row now id rs in
    if is_claimable id r
    then record r { status = sending; claimed_at = some now } ∷ rs
    else r ∷ rest

unfoldable pub claim : Bool → ℕ → ℕ → Crm → Crm
unfolding any claim_row
claim queue_up now id s =
    if any (is_claimable id) s.recipients
    then record s {
      recipients = claim_row now id s.recipients;
      send_jobs = if queue_up then id ∷ s.send_jobs else s.send_jobs;
    }
    else s

unfoldable pub claim_all : Bool → ℕ → List Recipient → Crm → Crm
unfolding claim
claim_all queue_up now [] s = s
claim_all queue_up now (r ∷ rs) s = claim_all queue_up now rs (claim queue_up now r.id s)

-- The counter of an earlier day is set to 0.
unfoldable pub roll_over : ℕ → EmailProvider → Crm → Crm
unfolding update_where
roll_over now p s =
    if is_day (day_of now) p.sent_today_date
    then s
    else update_provider p.id
        (λ x. record x { sent_today = 0; sent_today_date = some (day_of now) }) s

abbrev pub due_rows : ℕ → EmailProvider → List Recipient → List Recipient
due_rows now p rows =
    slice (min (p.per_minute_limit - count (in_window now p.id) rows) 100)
      (sort_by_send_at (select (is_due now p.id) rows))

-- The part of the tick for one provider, by its row at the start of the tick.
unfoldable pub tick_provider : Bool → ℕ → EmailProvider → Crm → Crm
unfolding roll_over effective_daily_limit claim_all count sort_by_send_at select slice
tick_provider queue_up now p s =
    if leb (effective_daily_limit now p) (sent_on (day_of now) p)
      || leb p.per_minute_limit (count (in_window now p.id) s.recipients)
    then roll_over now p s
    else claim_all queue_up now (due_rows now p s.recipients) (roll_over now p s)

unfoldable pub tick_providers : Bool → ℕ → List EmailProvider → Crm → Crm
unfolding tick_provider
tick_providers queue_up now [] s = s
tick_providers queue_up now (p ∷ ps) s =
    tick_providers queue_up now ps (tick_provider queue_up now p s)

-- `tickInternal`
unfoldable pub send_tick : Bool → ℕ → Crm → Crm
unfolding tick_providers select
send_tick queue_up now s = tick_providers queue_up now (select (λ p. p.is_active) s.providers) s

-- `claimedAt: { $lt: t }`
abbrev before : ℕ → Option ℕ → Bool
before t none = false
before t (some u) = ltb u t

abbrev pub is_stale : ℕ → Recipient → Bool
is_stale now r = is_sending r.status && before (now - 600000) r.claimed_at

unfoldable pub requeue_stale : ℕ → Crm → Crm
unfolding update_where
requeue_stale now s = record s {
  recipients =
      update_where (is_stale now) (λ r. record r { status = queued; claimed_at = none })
        s.recipients;
}

abbrev pub is_active_of : ℕ → Recipient → Bool
is_active_of campaign_id r =
    r.campaign_ref == campaign_id && (is_queued r.status || is_sending r.status)

-- The running campaigns with nothing queued or in flight.
unfoldable pub complete_campaigns : ℕ → Crm → Crm
unfolding update_where any
complete_campaigns now s = record s {
  campaigns =
      update_where (λ c. is_running c.status && not (any (is_active_of c.id) s.recipients))
        (λ c. record c { status = completed; completed_at = some now }) s.campaigns;
}

-- The maintenance tick, without the imports.
unfoldable pub maintenance_tick : ℕ → Crm → Crm
unfolding requeue_stale complete_campaigns
maintenance_tick now s = complete_campaigns now (requeue_stale now s)
