-- ===== src/Marketing/Resuming.antt =====
-- src/modules/marketing/campaigns/campaigns.service.ts: a pause and the resumption after it.
use notaryday_backend.Common.{
  ℕ, ◌≡◌, refl, sym, ◌∙◌, ap, subst, Bool, true, false, ◌==◌, none, some, find_first, update_where,
  All, arith, if◌then◌else◌, update_where-undone, All-map, find_first-update_where,
  find_first-update_where_if, find_first-update_where_at,
}
use notaryday_backend.Schema.{ok}
use notaryday_backend.Marketing.{
  Recipient, Campaign, Crm, CampaignStatus, running, paused, is_running, is_sending, skipped,
}
use notaryday_backend.Marketing.Sending.{Outcome, send, decide, carry_out, skip}
use notaryday_backend.Marketing.Campaigns.{
  pause, resume, find_campaign, is_queued_of, mark_queued, update_campaign,
}

running_sound : (s : CampaignStatus) → is_running s ≡ true → s ≡ running
running_sound s h = ground arith

module _ (id : ℕ) (s : Crm) (c : Campaign) (known : find_campaign id s ≡ some c)
    (runs : is_running c.status ≡ true) where
  paused_campaign :
      find_first
        (λ x. x.id == id)
        (update_where (λ x. x.id == id) (λ x. record x { status = paused }) s.campaigns)
      ≡ some (record c { status = paused })
  paused_campaign =
      find_first-update_where (λ x. x.id == id) (λ x. record x { status = paused }) s.campaigns
        (λ a h. h) known

  -- A running campaign, whose identifier no other has and whose queued recipients are marked as
  -- running, is paused and resumed at once: both succeed, and the database is as before.
  pub resume-pause :
      All (λ x. (x.id == id) ≡ true → is_running x.status ≡ true) s.campaigns
      → All (λ r. is_queued_of id r ≡ true → is_running r.campaign_status ≡ true) s.recipients
      → resume id (pause id s).1 ≡ (ok c, s)
  unfolding find_first pause resume
  resume-pause all_run marked =
      let rows =
        update_where-undone (is_queued_of id) (λ r. record r { campaign_status = paused })
          (λ r. record r { campaign_status = running }) s.recipients (λ r. refl)
          (All-map _ _ s.recipients
            (λ r h e.
              ap (λ st. record r { campaign_status = st })
                (sym (running_sound r.campaign_status (h e))))
            marked) in
      let campaigns =
        update_where-undone (λ x. x.id == id) (λ x. record x { status = paused })
          (λ x. record x { status = running }) s.campaigns (λ x. refl)
          (All-map _ _ s.campaigns
            (λ x h e. ap (λ st. record x { status = st }) (sym (running_sound x.status (h e))))
            all_run) in
      let same : record c { status = running } ≡ c =
        ap (λ st. record c { status = st }) (sym (running_sound c.status runs)) in
      rw (pause, known, runs) (rw (resume, paused_campaign) (rw (rows, campaigns, same) refl))

  abbrev paused_store : Crm
  paused_store = update_campaign id (λ x. record x { status = paused }) (mark_queued id paused s)

  pause-paused_store : (pause id s).1 ≡ paused_store
  unfolding pause
  pause-paused_store = rw (pause, known, runs) refl

  module _ (recipient_id : ℕ) {r : Recipient}
      (found : find_first (λ x. x.id == recipient_id) s.recipients ≡ some r)
      (sends : is_sending r.status ≡ true) (mine : r.campaign_ref ≡ id) where
    abbrev skipped_row : Recipient
    skipped_row = record r { status = skipped; skip_reason = some "PAUSED"; claimed_at = none }

    abbrev skipped_store : Crm
    skipped_store = skip r "PAUSED" paused_store

    still_claimed : find_first (λ x. x.id == recipient_id) paused_store.recipients ≡ some r
    still_claimed =
        let not_queued : is_queued_of id r ≡ false = ground (arith, sends) in
        find_first-update_where_if (is_queued_of id) (λ x. x.id == recipient_id)
          (λ x. record x { campaign_status = paused }) s.recipients (λ x. refl) found
        ∙ ap (λ b. some (if b then record r { campaign_status = paused } else r)) not_queued

    send-skipped_store :
        (now : ℕ) (outcome : Outcome) (is_final : Bool)
        → (send now outcome is_final recipient_id paused_store).1 ≡ skipped_store
    unfolding send decide carry_out
    send-skipped_store now outcome is_final =
        let home =
          subst
            (λ n.
              find_first (λ x. x.id == n) paused_store.campaigns
              ≡ some (record c { status = paused }))
            (sym mine) paused_campaign in
        rw (send, still_claimed, sends) (rw (decide, home) refl)

    resumed_row :
        find_first (λ x. x.id == recipient_id) (resume id skipped_store).1.recipients
        ≡ some skipped_row
    unfolding resume skip
    resumed_row =
        let own : (r.id == r.id) ≡ true = ground arith in
        let here =
          find_first-update_where_at (λ x. x.id == r.id) (λ x. x.id == recipient_id)
            (λ x. record x { status = skipped; skip_reason = some "PAUSED"; claimed_at = none })
            paused_store.recipients own (λ x. refl) still_claimed in
        let out : is_queued_of id skipped_row ≡ false = ground arith in
        rw (resume, paused_campaign)
          (find_first-update_where_if (is_queued_of id) (λ x. x.id == recipient_id)
              (λ x. record x { campaign_status = running }) skipped_store.recipients (λ x. refl)
              here
            ∙ ap
                (λ b.
                  some
                    (if b then record skipped_row { campaign_status = running } else skipped_row))
                out)

    resumed_campaign :
        ((resume id skipped_store).1.mails ≡ s.mails)
        × (find_campaign id (resume id skipped_store).1 ≡ some (record c { status = running }))
    unfolding resume skip
    resumed_campaign =
        rw (resume, paused_campaign)
          (
            refl,
            find_first-update_where (λ x. x.id == id) (λ x. record x { status = running }) _
                (λ a h. h) paused_campaign,
          )

    -- A recipient whose mail is being sent when its running campaign is paused is skipped, and stays
    -- skipped when the campaign is resumed; no mail has gone to it.
    pub claimed_at_pause_skipped :
        (now : ℕ) (outcome : Outcome) (is_final : Bool)
        → let t = (resume id (send now outcome is_final recipient_id (pause id s).1).1).1 in
          (find_first (λ x. x.id == recipient_id) t.recipients
            ≡ some (record r { status = skipped; skip_reason = some "PAUSED"; claimed_at = none }))
          × (t.mails ≡ s.mails)
          × (find_campaign id t ≡ some (record c { status = running }))
    claimed_at_pause_skipped now outcome is_final =
        let (mails, campaign) = resumed_campaign in
        rw (pause-paused_store, send-skipped_store now outcome is_final)
          (resumed_row, mails, campaign)
