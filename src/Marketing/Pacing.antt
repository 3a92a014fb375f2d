-- ===== src/Marketing/Pacing.antt =====
-- src/workers/marketing/crons/send-tick.service.ts: the pace of a provider.
use notaryday_backend.Common.{
  count, ℕ, ◌-◌, ◌≤◌, ◌≡◌, ◌≢◌, inl, inr, or_false, min, Bool, false, ◌||◌, ◌==◌, List, [], ◌∷◌, ap,
  subst, All, select, length-slice, slice-All, sort_by-All, select-All, Bool-cases, arith, leb,
  ==_iff,
}
use notaryday_backend.Marketing.{Recipient, EmailProvider, Crm, day_of}
use notaryday_backend.Marketing.Sending.{effective_daily_limit, is_day, sent_on}
use notaryday_backend.Marketing.Ticks.{
  in_window, is_due, sort_by_send_at, claim_all, roll_over, due_rows, tick_provider, tick_providers,
  send_tick,
}
use notaryday_backend.Marketing.Claims.{
  count-claim_all, roll_over_recipients, IsOwned, claim_all-IsOwned, claim_all_other,
}

-- The rows that a tick picks for a provider are the provider's.
due_rows-All :
    (owner : ℕ → ℕ) (now provider_id : ℕ) (p : EmailProvider) (rs : List Recipient)
    → IsOwned owner rs
    → p.id ≢ provider_id
    → All (λ r. owner r.id ≢ provider_id) (due_rows now p rs)
unfolding sort_by_send_at
due_rows-All owner now provider_id p rs owned other =
    let kept =
      select-All (λ r. owner r.id ≢ provider_id) (λ r. r.provider_ref ≡ owner r.id)
        (is_due now p.id) rs (λ r e h k. other (ground (arith, e, h, k))) owned in
    slice-All (λ r. owner r.id ≢ provider_id) _ _
      (sort_by-All (λ r. owner r.id ≢ provider_id) _ _ kept)

-- At most `n` recipients of the provider count for the last minute.
pub record IsPaced (owner : ℕ → ℕ) (now provider_id n : ℕ) (s : Crm) : Type 0 where
  pub owned : IsOwned owner s.recipients
  pub few : count (in_window now provider_id) s.recipients ≤ n

roll_over-IsPaced :
    (owner : ℕ → ℕ) (now provider_id n : ℕ) (p : EmailProvider) (s : Crm)
    → IsPaced owner now provider_id n s
    → IsPaced owner now provider_id n (roll_over now p s)
unfolding roll_over
roll_over-IsPaced owner now provider_id n p s h =
    elim (Bool-cases (is_day (day_of now) p.sent_today_date)) [
      | inl e ↦ rw e h
      | inr e ↦ rw e (record { owned = h.owned; few = h.few })
    ]

-- The claims for the provider itself fill its budget of the minute at most.
own_claims :
    (queue_up : Bool) (now : ℕ) (p : EmailProvider) (s t : Crm)
    → t.recipients ≡ s.recipients
    → leb p.per_minute_limit (count (in_window now p.id) s.recipients) ≡ false
    → count (in_window now p.id) (claim_all queue_up now (due_rows now p s.recipients) t).recipients
      ≤ p.per_minute_limit
own_claims queue_up now p s t same below =
    let claimed = count-claim_all queue_up now p.id (due_rows now p s.recipients) t in
    let few =
      length-slice (min (p.per_minute_limit - count (in_window now p.id) s.recipients) 100)
        (sort_by_send_at (select (is_due now p.id) s.recipients)) in
    let start = ap (count (in_window now p.id)) same in ground (arith, claimed, few, start, below)

claims-IsPaced :
    (queue_up : Bool) (owner : ℕ → ℕ) (now provider_id n : ℕ) (p : EmailProvider) (s t : Crm)
    → (p.id ≡ provider_id → p.per_minute_limit ≤ n)
    → t.recipients ≡ s.recipients
    → leb p.per_minute_limit (count (in_window now p.id) s.recipients) ≡ false
    → IsPaced owner now provider_id n t
    → IsPaced owner now provider_id n (claim_all queue_up now (due_rows now p s.recipients) t)
claims-IsPaced queue_up owner now provider_id n p s t limit same below h =
    elim (Bool-cases (p.id == provider_id)) [
      | inl e ↦
          let here : p.id ≡ provider_id = (==_iff p.id provider_id).0 e in
          let few = own_claims queue_up now p s t same below in
          let bound = limit here in
          record {
            owned = claim_all-IsOwned queue_up owner now (due_rows now p s.recipients) t h.owned;
            few =
                subst
                  (λ i.
                    count (in_window now i)
                      (claim_all queue_up now (due_rows now p s.recipients) t).recipients
                    ≤ n)
                  here (omega arith);
          }
      | inr e ↦
          let others =
            due_rows-All owner now provider_id p s.recipients (subst (IsOwned owner) same h.owned)
              (λ k. ground (arith, e, k)) in
          let kept =
            claim_all_other queue_up owner now provider_id (due_rows now p s.recipients) t h.owned
              others in
          record {
            owned = claim_all-IsOwned queue_up owner now (due_rows now p s.recipients) t h.owned;
            few = rw kept (h.few);
          }
    ]

tick_provider-IsPaced :
    (queue_up : Bool) (owner : ℕ → ℕ) (now provider_id n : ℕ) (p : EmailProvider) (s : Crm)
    → (p.id ≡ provider_id → p.per_minute_limit ≤ n)
    → IsPaced owner now provider_id n s
    → IsPaced owner now provider_id n (tick_provider queue_up now p s)
unfolding tick_provider
tick_provider-IsPaced queue_up owner now provider_id n p s limit h =
    let rolled = roll_over-IsPaced owner now provider_id n p s h in
    let spent = leb (effective_daily_limit now p) (sent_on (day_of now) p) in
    let full = leb p.per_minute_limit (count (in_window now p.id) s.recipients) in
    elim (Bool-cases (spent || full)) [
      | inl e ↦ rw e rolled
      | inr e ↦ rw e (
          claims-IsPaced queue_up owner now provider_id n p s (roll_over now p s) limit
            (roll_over_recipients now p s) (or_false {a = spent} e).1 rolled)
    ]

tick_providers-IsPaced :
    (queue_up : Bool) (owner : ℕ → ℕ) (now provider_id n : ℕ) (ps : List EmailProvider) (s : Crm)
    → All (λ p. p.id ≡ provider_id → p.per_minute_limit ≤ n) ps
    → IsPaced owner now provider_id n s
    → IsPaced owner now provider_id n (tick_providers queue_up now ps s)
unfolding tick_providers
tick_providers-IsPaced queue_up owner now provider_id n [] s limits h = h
tick_providers-IsPaced queue_up owner now provider_id n (p ∷ ps) s (limit, limits) h =
    tick_providers-IsPaced queue_up owner now provider_id n ps (tick_provider queue_up now p s)
      limits (tick_provider-IsPaced queue_up owner now provider_id n p s limit h)

select-kept :
    (P : EmailProvider → Type 0) (q : EmailProvider → Bool) (ps : List EmailProvider)
    → All P ps
    → All P (select q ps)
unfolding select
select-kept P q [] h = tt
select-kept P q (p ∷ ps) (h, hs) = elim (Bool-cases (q p)) [
  | inl e ↦ rw e (h, select-kept P q ps hs)
  | inr e ↦ rw e (select-kept P q ps hs)
]

-- Where a recipient's identifier determines its provider, a send tick keeps the pace: if at most `n`
-- recipients of a provider count as claimed or sent within the last minute, and its limit a minute is
-- at most `n`, then so many at most count after the tick.
pub send_tick-IsPaced :
    (queue_up : Bool) (owner : ℕ → ℕ) (now provider_id n : ℕ) (s : Crm)
    → All (λ p. p.id ≡ provider_id → p.per_minute_limit ≤ n) s.providers
    → IsPaced owner now provider_id n s
    → IsPaced owner now provider_id n (send_tick queue_up now s)
unfolding send_tick
send_tick-IsPaced queue_up owner now provider_id n s limits h =
    tick_providers-IsPaced queue_up owner now provider_id n (select (λ p. p.is_active) s.providers)
      s
      (select-kept (λ p. p.id ≡ provider_id → p.per_minute_limit ≤ n) (λ p. p.is_active) s.providers
        limits)
      h
