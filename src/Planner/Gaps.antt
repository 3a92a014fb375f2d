-- ===== src/Planner/Gaps.antt =====
-- src/modules/planner/planner.service.ts: `findGaps`.
--
-- A net amount is exact before its rounding to cents. A label is the place of its job in the plan.
pub mod Fitting
use notaryday_backend.Common.{
  ℕ, ◌+◌, ◌*◌, ◌-◌, ◌/◌, Bool, true, ◌&&◌, ◌||◌, ◌==◌, not, Option, none, some, List, [], ◌∷◌,
  get_or, or_else, is_some, select, length, sort_by, slice, if◌then◌else◌, leb, ltb,
}
use notaryday_backend.Common.Int.{ℤ, sub_ℕ, round_div, leb_ℤ}
use notaryday_backend.Schema.{
  Job, Store, M, ◌>>=◌, pure, get_store, Env, Point, Route, pending, eq_status,
}
use notaryday_backend.Tables.{get_settings}
use notaryday_backend.Profitability.{cent}
use notaryday_backend.Planner.{place, is_place}
use notaryday_backend.Planner.Today.{TodayPlan, get_today}

-- GapCandidateJob: the job, with what the route to it and on from it adds.
pub record GapCandidate : Type 0 where
  pub job : Job
  pub net_earnings : ℤ
  pub miles_from : ℕ
  pub miles_from_label : ℕ

-- GapCandidate
pub record Gap : Type 0 where
  pub gap_start : ℕ
  pub gap_end : ℕ
  pub gap_mins : ℕ
  pub prev_job_id : ℕ
  pub next_job_id : ℕ
  pub prev_job_label : ℕ
  pub next_job_label : ℕ
  pub candidates : List GapCandidate

-- The pending jobs of the day.
abbrev pub is_pending : ℕ → ℕ → ℕ → Job → Bool
is_pending user_id day next j =
    j.user_id == user_id
    && (not (is_some j.deleted_at)
        && (eq_status j.status pending
            && (leb day j.appointment_time && ltb j.appointment_time next)))

-- `orderBy: { fee: 'desc' }`
unfoldable pub sort_by_fee : List Job → List Job
unfolding sort_by
sort_by_fee = sort_by (λ j k. leb k.fee j.fee)

abbrev gap_buffer : ℕ
gap_buffer = 600000

abbrev pub ends_of : Job → ℕ
ends_of j = get_or (or_else j.scanback_ends_at j.signing_ends_at) j.appointment_time

abbrev pub gap_start_of : Job → ℕ
gap_start_of curr = ends_of curr + gap_buffer

-- A start before the epoch's first ten minutes ends the gap at 0, which is before its start as well.
abbrev pub gap_end_of : Job → ℕ
gap_end_of next = next.appointment_time - gap_buffer

-- `lat == null || lng == null`
abbrev pub has_place : Job → Bool
has_place p = is_some p.lat && is_some p.lng

unfoldable pub gap_net : Job → ℕ → ℕ → ℤ
unfolding round_div
gap_net p miles irs_rate =
    round_div (sub_ℕ (p.fee * cent) (miles * 2 * irs_rate + p.platform_fee * cent)) cent

abbrev pub minutes_needed : Job → Route → Route → ℕ
minutes_needed p there onward =
    there.drive_time_mins + p.signing_duration_mins + p.scanback_duration_mins
    + onward.drive_time_mins

abbrev pub gap_candidate : Job → Route → Route → ℕ → ℕ → GapCandidate
gap_candidate p there onward irs_rate label = record {
  job = p;
  net_earnings = gap_net p (there.distance_miles + onward.distance_miles) irs_rate;
  miles_from = there.distance_miles + onward.distance_miles;
  miles_from_label = label;
}

abbrev pub candidate_by : Job → ℕ → ℕ → ℕ → Option Route → Option Route → Option GapCandidate
candidate_by p gap_ms irs_rate label none onward = none
candidate_by p gap_ms irs_rate label (some there) none = none
candidate_by p gap_ms irs_rate label (some there) (some onward) =
    if ltb gap_ms (minutes_needed p there onward * 60000)
    then none
    else some (gap_candidate p there onward irs_rate label)

-- The body of the loop over the pending jobs.
unfoldable pub candidate_of : Env → Job → Job → ℕ → ℕ → Job → Option GapCandidate
unfolding gap_net
candidate_of env curr next irs_rate label p =
    if is_place (place curr) && (has_place p && is_place (place next))
    then candidate_by p (gap_end_of next - gap_start_of curr) irs_rate label
        (env.get_route (place curr) (place p)) (env.get_route (place p) (place next))
    else none

abbrev pub with_candidate : Option GapCandidate → List GapCandidate → List GapCandidate
with_candidate none cs = cs
with_candidate (some c) cs = c ∷ cs

unfoldable pub matched : Env → Job → Job → ℕ → ℕ → List Job → List GapCandidate
unfolding candidate_of
matched env curr next irs_rate label [] = []
matched env curr next irs_rate label (p ∷ ps) =
    with_candidate (candidate_of env curr next irs_rate label p)
      (matched env curr next irs_rate label ps)

-- `b.net_earnings - a.net_earnings`
abbrev pub earns_more : GapCandidate → GapCandidate → Bool
earns_more c d = leb_ℤ d.net_earnings c.net_earnings

unfoldable pub sort_by_net : List GapCandidate → List GapCandidate
unfolding sort_by
sort_by_net = sort_by earns_more

abbrev pub push_gap : Gap → List GapCandidate → List Gap → List Gap
push_gap g [] gaps = gaps
push_gap g (c ∷ cs) gaps = g ∷ gaps

abbrev pub gap_of : Job → Job → ℕ → List GapCandidate → Gap
gap_of curr next label cs = record {
  gap_start = gap_start_of curr;
  gap_end = gap_end_of next;
  gap_mins = (gap_end_of next - gap_start_of curr) / 60000;
  prev_job_id = curr.id;
  next_job_id = next.id;
  prev_job_label = label;
  next_job_label = label + 1;
  candidates = slice 3 cs;
}

-- The loop over the plan; `label` is `i + 1`.
unfoldable pub gaps_along : Env → ℕ → List Job → ℕ → List Job → List Gap
unfolding matched sort_by_net slice
gaps_along env irs_rate pending_jobs label [] = []
gaps_along env irs_rate pending_jobs label (curr ∷ []) = []
gaps_along env irs_rate pending_jobs label (curr ∷ next ∷ js) =
    let rest = gaps_along env irs_rate pending_jobs (label + 1) (next ∷ js) in
    let cs = sort_by_net (matched env curr next irs_rate label pending_jobs) in
    if ltb (gap_end_of next) (gap_start_of curr + 30 * 60000)
    then rest
    else push_gap (gap_of curr next label cs) cs rest

unfoldable pub find_gaps : Env → ℕ → ℕ → ℕ → M (List Gap)
unfolding gaps_along sort_by_fee slice select sort_by
find_gaps env user_id day next = do
  plan ← get_today env user_id day next
  if ltb (length plan.jobs) 2 then pure [] else do
    settings ← get_settings user_id
    s ← get_store
    let pending_jobs = slice 50 (sort_by_fee (select (is_pending user_id day next) s.jobs))
    pure (gaps_along env settings.irs_rate_per_mile pending_jobs 1 plan.jobs)
