-- ===== src/Booking/Alternatives.antt =====
-- src/modules/booking/booking.service.ts: `suggestAlternatives`.
--
-- `windows i` is the window of the i-th day from the one that was asked for, and `is_requested` tells
-- whether the text of a start on the first day is the requested time.
use text.Mathlib.Text.{◌==◌ as str_eq}
use notaryday_backend.Common.{
  ℕ, zero, suc, String, Bool, ◌&&◌, ◌==◌, Option, List, [], ◌∷◌, ◌++◌, length, find_first,
  if◌then◌else◌, leb, ltb,
}
use notaryday_backend.Schema.{
  UserSettings, Store, SigningType, M, found, ◌>>=◌, ◌>>◌, pure, throw, when, get_store,
  bad_request,
}
use notaryday_backend.Tables.{get_settings}
use notaryday_backend.Booking.Requests.{is_free_plan}
use notaryday_backend.Booking.Slots.{Window, compute_slots}

-- The inner loop, which ends when there are five.
unfoldable pub take_slots : (ℕ → Bool) → List ℕ → List ℕ → List ℕ
take_slots is_skipped [] out = out
take_slots is_skipped (t ∷ ts) out =
    let next = out ++ t ∷ [] in
    let without = take_slots is_skipped ts out in
    let with_it = take_slots is_skipped ts next in
    if is_skipped t then without else if leb 5 (length next) then next else with_it

-- The outer loop, with the rounds that are left.
unfoldable pub days_from : ℕ → ℕ → (ℕ → ℕ → Bool) → (ℕ → List ℕ) → List ℕ → List ℕ
unfolding take_slots
days_from zero i is_skipped slots out = out
days_from (suc rounds) i is_skipped slots out =
    let rest =
      days_from rounds (suc i) is_skipped slots (take_slots (is_skipped i) (slots i) out) in
    if ltb (length out) 5 then rest else out

abbrev pub skips : (ℕ → Bool) → ℕ → ℕ → Bool
skips is_requested i t = i == 0 && is_requested t

abbrev pub slots_of : ℕ → UserSettings → (ℕ → Option Window) → SigningType → ℕ → Store → ℕ → List ℕ
slots_of notary_id settings windows type now s i =
    compute_slots notary_id settings (windows i) type now s

unfoldable pub suggest_alternatives :
    String → (ℕ → Option Window) → (ℕ → Bool) → SigningType → ℕ → M (List ℕ)
unfolding find_first
suggest_alternatives username windows is_requested type now = do
  s ← get_store
  notary ← found (find_first (λ u. str_eq u.username username) s.users) "Notary not found"
  when (is_free_plan notary.plan) (throw (bad_request "Free plan users cannot receive bookings"))
  settings ← get_settings notary.id
  t ← get_store
  if settings.booking_page_enabled
      then pure
          (days_from 14 0 (skips is_requested) (slots_of notary.id settings windows type now t) [])
      else pure []
