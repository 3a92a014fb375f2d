-- ===== src/Citt.antt =====
-- src/modules/citt/citt.service.ts: "Can I take this?" (`runCheck`).
--
-- Amounts of a result are in micro-dollars (1e-6), in which the unrounded mileage cost of a
-- declined check is a whole number too. The texts of the reasons are named, not spelled.
pub mod Check
pub mod Verdicts
pub mod Answers
pub mod Neighbours
use Prim.Native.Nat.{zero}
use notaryday_backend.Common.{
  ℕ, ◌+◌, ◌*◌, ◌-◌, String, Bool, true, false, ◌&&◌, ◌||◌, ◌==◌, not, Option, none, some, List, [],
  ◌∷◌, get_or, or_else, is_some, is_empty, find_first, select, if◌then◌else◌, ltb, leb,
}
use notaryday_backend.Common.Int.{ℤ, pos, sub_ℕ, scale, floor_div, ◌-ℤ◌, ltb_ℤ}
use notaryday_backend.Schema.{
  Job, User, UserSettings, Store, M, ◌>>=◌, ◌>>◌, pure, when, if_some, get_store, emit, ok, Env,
  Point, Route, SigningType, confirmed, in_progress, eq_status, track, conversion,
}
use notaryday_backend.Tables.{get_settings, find_user}
use notaryday_backend.Profitability.{Profitability, calculate_profitability, raw_mileage, cent}
use notaryday_backend.Jobs.{earliest}
use notaryday_backend.Jobs.Editing.{home_of, or_await, get_signing_duration, get_scanback_duration}

pub data Verdict : Type 0 where
  take_it risky decline : Verdict

pub data Reason : Type 0 where
  no_address no_home no_route prior_conflict later_conflict low_net tight_gap marginal good : Reason

-- CittDto: `appointment_time` with the local day that it falls on.
pub record CittCheckDto : Type 0 where
  pub address : String
  pub appointment_time : ℕ
  pub day_start : ℕ
  pub day_end : ℕ
  pub fee : ℕ
  pub platform_fee : ℕ
  pub signing_type : SigningType
  pub signing_duration_mins : Option ℕ

pub record CittResult : Type 0 where
  pub verdict : Verdict
  pub reason : Reason
  pub drive_distance_miles : ℕ
  pub drive_time_mins : ℕ
  pub mileage_cost : ℤ
  pub net_earnings : ℤ
  pub effective_hourly : ℤ
  pub total_job_mins : ℕ
  pub can_make_it : Bool
  pub scanback_conflict : Bool
  pub gap_before : Option ℤ
  pub gap_after : Option ℤ
  pub prev_job : Option Job
  pub next_job : Option Job

abbrev pub min_gap_mins : ℤ
min_gap_mins = pos 10

-- In cents.
abbrev pub take_it_net : ℤ
take_it_net = pos 2000

abbrev pub risky_net : ℤ
risky_net = pos 1000

-- `Number(settings.min_acceptable_net) || RISKY_NET`
abbrev pub or_risky : ℤ → ℤ
or_risky (pos zero) = risky_net
or_risky n = n

abbrev pub min_acceptable : UserSettings → ℤ
min_acceptable settings = or_risky settings.min_acceptable_net

-- What is known when a check is refused or answered.
pub record Trip : Type 0 where
  pub distance_miles : ℕ
  pub drive_time_mins : ℕ
  pub gap_before : Option ℤ
  pub gap_after : Option ℤ
  pub prev_job : Option Job
  pub next_job : Option Job

abbrev pub no_trip : Trip
no_trip = record {
  distance_miles = 0;
  drive_time_mins = 0;
  gap_before = none;
  gap_after = none;
  prev_job = none;
  next_job = none;
}

-- `decline(reason, ..)`
unfoldable pub declined_result : Reason → Trip → ℕ → ℕ → Bool → CittResult
declined_result reason t fee irs_rate is_schedule_conflict = record {
  verdict = decline;
  reason = reason;
  drive_distance_miles = t.distance_miles;
  drive_time_mins = t.drive_time_mins;
  mileage_cost = pos (raw_mileage t.distance_miles irs_rate);
  net_earnings = sub_ℕ (fee * cent) (raw_mileage t.distance_miles irs_rate);
  effective_hourly = pos 0;
  total_job_mins = 0;
  can_make_it = not is_schedule_conflict;
  scanback_conflict = false;
  gap_before = t.gap_before;
  gap_after = t.gap_after;
  prev_job = t.prev_job;
  next_job = t.next_job;
}

-- The last of the selected jobs by `appointment_time`.
unfoldable pub latest : (Job → Bool) → List Job → Option Job
latest p [] = none
latest p (j ∷ js) =
    let rest = latest p js in
    let last : Job = elim rest [
      | none ↦ j
      | some k ↦ if leb k.appointment_time j.appointment_time then j else k
    ] in
    if p j then some last else rest

-- `signing_ends_at`, or the appointment plus the signing minutes.
abbrev pub prev_ends_at : Job → ℕ
prev_ends_at j = get_or j.signing_ends_at (j.appointment_time + j.signing_duration_mins * 60000)

unfoldable pub gap_before_of : ℕ → ℕ → Job → ℤ
unfolding floor_div ◌-ℤ◌
gap_before_of appointment drive_mins prev =
    floor_div (sub_ℕ appointment (prev_ends_at prev)) 60000 -ℤ pos drive_mins

unfoldable pub gap_after_of : ℕ → Job → ℤ
unfolding floor_div
gap_after_of job_ends_at next = floor_div (sub_ℕ next.appointment_time job_ends_at) 60000

-- `gap !== null && gap < bound`
abbrev pub gap_below : ℤ → Option ℤ → Bool
gap_below bound none = false
gap_below bound (some g) = ltb_ℤ g bound

abbrev pub is_risky_gap : Trip → Bool
is_risky_gap t = gap_below min_gap_mins t.gap_before || gap_below min_gap_mins t.gap_after

abbrev pub verdict_of : ℤ → Trip → ℤ → Verdict
verdict_of min_net t net =
    if ltb_ℤ net min_net
    then decline
    else if ltb_ℤ net take_it_net || is_risky_gap t
    then risky
    else take_it

abbrev pub reason_of : ℤ → Trip → ℤ → Reason
reason_of min_net t net =
    if ltb_ℤ net min_net
    then low_net
    else if ltb_ℤ net take_it_net || is_risky_gap t
    then (if is_risky_gap t then tight_gap else marginal)
    else good

unfoldable pub answered_result : ℤ → Trip → Profitability → CittResult
answered_result min_net t p = record {
  verdict = verdict_of min_net t p.net_earnings;
  reason = reason_of min_net t p.net_earnings;
  drive_distance_miles = t.distance_miles;
  drive_time_mins = t.drive_time_mins;
  mileage_cost = scale cent p.mileage_cost;
  net_earnings = scale cent p.net_earnings;
  effective_hourly = scale cent p.effective_hourly;
  total_job_mins = p.total_job_mins;
  can_make_it = true;
  scanback_conflict = false;
  gap_before = t.gap_before;
  gap_after = t.gap_after;
  prev_job = t.prev_job;
  next_job = t.next_job;
}

-- The conflict checks, the profitability and the verdict.
unfoldable pub judge : UserSettings → CittCheckDto → ℕ → ℕ → Trip → CittResult
unfolding calculate_profitability declined_result answered_result
judge settings dto signing scanback t =
    if gap_below (pos 0) t.gap_before
    then declined_result prior_conflict t dto.fee settings.irs_rate_per_mile true
    else if gap_below (pos 0) t.gap_after
    then declined_result later_conflict t dto.fee settings.irs_rate_per_mile true
    else answered_result (min_acceptable settings) t (
        calculate_profitability (record {
          fee = dto.fee;
          platform_fee = dto.platform_fee;
          distance_miles = t.distance_miles;
          irs_rate_per_mile = settings.irs_rate_per_mile;
          signing_duration_mins = signing;
          drive_time_mins = t.drive_time_mins;
          scanback_duration_mins = scanback;
        }))
