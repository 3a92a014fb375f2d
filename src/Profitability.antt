-- ===== src/Profitability.antt =====
-- src/common/utils/profitability.util.ts and eta-window.util.ts.
--
-- The numbers are JavaScript floats there and exact here: a mileage cost is a whole number of
-- 1e-6 dollars (hundredths of a mile times 1/10000 dollar a mile), a unit that this file calls
-- micro-dollars, and each result is rounded to cents as `Math.round(x * 100) / 100` does.
use notaryday_backend.Common.{ℕ, ◌+◌, ◌*◌, Bool, ◌&&◌, ltb, if◌then◌else◌}
use notaryday_backend.Common.Int.{ℤ, pos, sub_ℕ, scale, round_div, leb_ℤ}

pub record Params : Type 0 where
  pub fee : ℕ
  pub platform_fee : ℕ
  pub distance_miles : ℕ
  pub irs_rate_per_mile : ℕ
  pub signing_duration_mins : ℕ
  pub drive_time_mins : ℕ
  -- `scanbackDurationMins ?? 0`
  pub scanback_duration_mins : ℕ

pub record Profitability : Type 0 where
  pub mileage_cost : ℤ
  pub net_earnings : ℤ
  pub effective_hourly : ℤ
  pub total_job_mins : ℕ

-- Micro-dollars in a cent.
abbrev pub cent : ℕ
cent = 10000

-- `distanceMiles * 2 * irsRate`, in micro-dollars.
unfoldable pub raw_mileage : ℕ → ℕ → ℕ
raw_mileage distance_miles irs_rate = distance_miles * 2 * irs_rate

-- `fee - mileageCost - platformFee`, in micro-dollars.
unfoldable pub raw_net : Params → ℤ
unfolding raw_mileage
raw_net p =
    sub_ℕ (p.fee * cent) (raw_mileage p.distance_miles p.irs_rate_per_mile + p.platform_fee * cent)

unfoldable pub total_mins : Params → ℕ
total_mins p = p.drive_time_mins + p.signing_duration_mins + p.scanback_duration_mins

unfoldable pub calculate_profitability : Params → Profitability
unfolding raw_mileage raw_net total_mins
calculate_profitability p = record {
  mileage_cost = round_div (pos (raw_mileage p.distance_miles p.irs_rate_per_mile)) cent;
  net_earnings = round_div (raw_net p) cent;
  effective_hourly =
      if ltb 0 (total_mins p)
      then round_div (scale 60 (raw_net p)) (cent * total_mins p)
      else pos 0;
  total_job_mins = total_mins p;
}

abbrev pub eta_wait_buffer_min : ℕ
eta_wait_buffer_min = 45

abbrev pub eta_late_tolerance_min : ℕ
eta_late_tolerance_min = 15

-- `diffMin`, in milliseconds: the division by 60000 is moved to the bounds.
abbrev diff_ms : ℕ → ℕ → ℕ → ℤ
diff_ms appointment_time drive_mins now = sub_ℕ appointment_time (now + drive_mins * 60000)

unfoldable pub is_eta_send_appropriate : ℕ → ℕ → ℕ → Bool
is_eta_send_appropriate appointment_time drive_mins now =
    leb_ℤ (diff_ms appointment_time drive_mins now) (pos (eta_wait_buffer_min * 60000))
    && leb_ℤ (sub_ℕ 0 (eta_late_tolerance_min * 60000)) (diff_ms appointment_time drive_mins now)
