-- ===== src/Planner/Gaps/Fitting.antt =====
-- src/modules/planner/planner.service.ts: what `findGaps` offers.
use notaryday_backend.Common.{
  ℕ, ◌+◌, ◌*◌, ◌≤◌, ◌<◌, ◌≡◌, Option, none, some, List, ◌∷◌, length, All, IsSortedBy, find_first,
  ◌==◌,
}
use notaryday_backend.Schema.{Job, Store, Env, Route, ok, UserSettings}
use notaryday_backend.Planner.{place}
use notaryday_backend.Planner.Today.{TodayPlan, get_today}
use notaryday_backend.Planner.Gaps.{
  GapCandidate, Gap, ends_of, gap_start_of, gap_end_of, gap_net, minutes_needed, earns_more,
}

-- A candidate is one of the jobs and fits between the two: the way there, the signing, the scanback
-- and the way on take no more than the gap.
pub record IsFitting (env : Env) (irs_rate : ℕ) (P : Job → Type 0) (curr next : Job)
    (c : GapCandidate) : Type 0 where
  pub there : Route
  pub onward : Route
  pub listed : P c.job
  pub there_found : env.get_route (place curr) (place c.job) ≡ some there
  pub onward_found : env.get_route (place c.job) (place next) ≡ some onward
  pub fits : gap_start_of curr + minutes_needed c.job there onward * 60000 ≤ gap_end_of next
  pub net : c.net_earnings ≡ gap_net c.job (there.distance_miles + onward.distance_miles) irs_rate

-- Two jobs that follow one another in a list.
pub data Follow (curr next : Job) : List Job → Type 0 where
  here : {js : List Job} → Follow curr next (curr ∷ next ∷ js)
  later : {j : Job} {js : List Job} → Follow curr next js → Follow curr next (j ∷ js)

-- A gap between two jobs that follow one another in the list: it lasts half an hour at least, ten
-- minutes from either job, and one to three candidates fit into it, the best paid first.
pub record IsGap (env : Env) (irs_rate : ℕ) (P : Job → Type 0) (js : List Job) (g : Gap)
    : Type 0 where
  pub curr : Job
  pub next : Job
  pub follow : Follow curr next js
  pub from_curr : g.prev_job_id ≡ curr.id
  pub to_next : g.next_job_id ≡ next.id
  pub starts : g.gap_start ≡ ends_of curr + 600000
  pub long : g.gap_start + 1800000 ≤ g.gap_end
  pub ends : g.gap_end + 600000 ≡ next.appointment_time
  pub some_fit : 0 < length g.candidates
  pub few : length g.candidates ≤ 3
  pub ranked : IsSortedBy earns_more g.candidates
  pub all_fit : All (IsFitting env irs_rate P curr next) g.candidates

abbrev Holds {ℓ κ} : {A : Type ℓ} → (A → Type κ) → Option A → Type κ
Holds P none = Unit
Holds P (some c) = P c

module _ (env : Env) (user_id day next : ℕ) (s : Store) {settings : UserSettings}
    (known : find_first (λ r. r.user_id == user_id) s.settings ≡ some settings) where
  -- The plan is always given, and the settings stay.
  abbrev HasPlan : Type 0
  HasPlan =
      (plan : TodayPlan) × (t : Store) × (get_today env user_id day next s ≡ (ok plan, t))
      × (t.settings ≡ s.settings)
