-- ===== src/Booking/Suggested.antt =====
-- src/modules/booking/booking.service.ts: the alternatives that the page suggests.
use mathlib.Core.Bool.{false≢true}
use text.Mathlib.Text.{◌==◌ as str_eq}
use notaryday_backend.Common.{
  String, Option, none, some, Option-cases, find_first, select-All, ℕ, zero, suc, ◌+◌, ◌-◌, ◌≡◌,
  refl, sym, ◌∙◌, ap, subst, Bool, true, false, not, List, [], ◌∷◌, ◌++◌, length, select, slice,
  All, slice-All, length-slice, Bool-cases, inl, inr, arith, leb, ltb, ◌==◌,
}
use notaryday_backend.Schema.{User, UserSettings, Booking, Store, SigningType, Env, ok}
use notaryday_backend.Tables.{get_settings, default_settings}
use notaryday_backend.Booking.Slots.{Window, compute_slots, occupied}
use notaryday_backend.Booking.Requests.{CreateBookingDto, create_for, is_free_plan}
use notaryday_backend.Booking.Conflicts.{HasShortBlocks}
use notaryday_backend.Booking.Offers.{settings_of}
use notaryday_backend.Booking.Offered.{IsOrdinary, slots_bookable}
use notaryday_backend.Booking.Alternatives.{
  take_slots, days_from, skips, slots_of, suggest_alternatives,
}

-- All that the days offer, one day after the other.
unfoldable pub offers : ℕ → ℕ → (ℕ → ℕ → Bool) → (ℕ → List ℕ) → List ℕ
unfolding select
offers zero i is_skipped slots = []
offers (suc rounds) i is_skipped slots =
    select (λ t. not (is_skipped i t)) (slots i) ++ offers rounds (suc i) is_skipped slots

append_assoc : (xs ys zs : List ℕ) → (xs ++ ys) ++ zs ≡ xs ++ (ys ++ zs)
append_assoc [] ys zs = refl
append_assoc (x ∷ xs) ys zs = ap (λ l. x ∷ l) (append_assoc xs ys zs)

append_nil : (xs : List ℕ) → xs ++ [] ≡ xs
append_nil [] = refl
append_nil (x ∷ xs) = ap (λ l. x ∷ l) (append_nil xs)

length-append : (xs ys : List ℕ) → length (xs ++ ys) ≡ length xs + length ys
length-append [] ys = omega arith
length-append (x ∷ xs) ys = let ih = length-append xs ys in omega (arith, ih)

slice-append :
    (n : ℕ) (xs ys : List ℕ) → slice n (xs ++ ys) ≡ slice n xs ++ slice (n - length (slice n xs)) ys
unfolding slice
slice-append zero xs ys = refl
slice-append (suc n) [] ys = let same : suc n ≡ suc n - 0 = omega arith in ap (λ k. slice k ys) same
slice-append (suc n) (x ∷ xs) ys =
    let same : n - length (slice n xs) ≡ suc n - suc (length (slice n xs)) = omega arith in
    ap (λ l. x ∷ l) (slice-append n xs ys ∙ ap (λ k. slice n xs ++ slice k ys) same)

take_slots_lem :
    (n : ℕ) (is_skipped : ℕ → Bool) (ts out : List ℕ)
    → length out + suc n ≡ 5
    → take_slots is_skipped ts out ≡ out ++ slice (suc n) (select (λ t. not (is_skipped t)) ts)
unfolding take_slots slice select
take_slots_lem n is_skipped [] out room = sym (append_nil out)
take_slots_lem zero is_skipped (t ∷ ts) out room = elim (Bool-cases (is_skipped t)) [
  | inl e ↦ rw e (take_slots_lem zero is_skipped ts out room)
  | inr e ↦
      let more = length-append out (t ∷ []) in
      let full : leb 5 (length (out ++ t ∷ [])) ≡ true = ground (arith, more, room) in
      rw (e, full) refl
]
take_slots_lem (suc n) is_skipped (t ∷ ts) out room = elim (Bool-cases (is_skipped t)) [
  | inl e ↦ rw e (take_slots_lem (suc n) is_skipped ts out room)
  | inr e ↦
      let more = length-append out (t ∷ []) in
      let open_still : leb 5 (length (out ++ t ∷ [])) ≡ false = ground (arith, more, room) in
      rw (e, open_still)
        (take_slots_lem n is_skipped ts (out ++ t ∷ []) (omega (arith, more, room))
          ∙ append_assoc out (t ∷ []) (slice (suc n) (select (λ t. not (is_skipped t)) ts)))
]

-- The loops end with the first five of all that is offered.
pub days_from_lem :
    (rounds i n : ℕ) (is_skipped : ℕ → ℕ → Bool) (slots : ℕ → List ℕ) (out : List ℕ)
    → length out + n ≡ 5
    → days_from rounds i is_skipped slots out ≡ out ++ slice n (offers rounds i is_skipped slots)
unfolding days_from offers slice
days_from_lem zero i zero is_skipped slots out room = sym (append_nil out)
days_from_lem zero i (suc n) is_skipped slots out room = sym (append_nil out)
days_from_lem (suc rounds) i zero is_skipped slots out room =
    let full : ltb (length out) 5 ≡ false = ground (arith, room) in rw full (sym (append_nil out))
days_from_lem (suc rounds) i (suc n) is_skipped slots out room =
    let open_still : ltb (length out) 5 ≡ true = ground (arith, room) in
    let here = select (λ t. not (is_skipped i t)) (slots i) in
    let rest = offers rounds (suc i) is_skipped slots in
    let one = take_slots_lem n (is_skipped i) (slots i) out room in
    let left = suc n - length (slice (suc n) here) in
    let few = length-slice (suc n) here in
    let size = length-append out (slice (suc n) here) in
    let room_left : length (out ++ slice (suc n) here) + left ≡ 5 =
      omega (arith, few, size, room) in
    rw (open_still, one)
      (days_from_lem rounds (suc i) left is_skipped slots (out ++ slice (suc n) here) room_left
        ∙ append_assoc out (slice (suc n) here) (slice left rest)
        ∙ ap (λ l. out ++ l) (sym (slice-append (suc n) here rest)))

append-All : (P : ℕ → Type 0) (xs ys : List ℕ) → All P xs → All P ys → All P (xs ++ ys)
append-All P [] ys h k = k
append-All P (x ∷ xs) ys (h, hs) k = (h, append-All P xs ys hs k)

offers-All :
    (P : ℕ → Type 0) (rounds i : ℕ) (is_skipped : ℕ → ℕ → Bool) (slots : ℕ → List ℕ)
    → ((j : ℕ) → All P (slots j))
    → All P (offers rounds i is_skipped slots)
unfolding offers
offers-All P zero i is_skipped slots h = tt
offers-All P (suc rounds) i is_skipped slots h =
    append-All P (select (λ t. not (is_skipped i t)) (slots i))
      (offers rounds (suc i) is_skipped slots)
      (select-All P P (λ t. not (is_skipped i t)) (slots i) (λ t e k. k) (h i))
      (offers-All P rounds (suc i) is_skipped slots h)

offers-same :
    (rounds i : ℕ) (is_skipped : ℕ → ℕ → Bool) (slots slots' : ℕ → List ℕ)
    → ((j : ℕ) → slots j ≡ slots' j)
    → offers rounds i is_skipped slots ≡ offers rounds i is_skipped slots'
unfolding offers
offers-same zero i is_skipped slots slots' h = refl
offers-same (suc rounds) i is_skipped slots slots' h =
    rw (h i, offers-same rounds (suc i) is_skipped slots slots' h) refl

-- A first read of the settings changes no slot.
compute_slots_same :
    (notary_id : ℕ) (settings r : UserSettings) (w : Option Window) (type : SigningType) (now : ℕ)
    (s : Store)
    → compute_slots notary_id settings w type now (record s { settings = r ∷ s.settings })
      ≡ compute_slots notary_id settings w type now s
unfolding compute_slots occupied
compute_slots_same notary_id settings r none type now s = refl
compute_slots_same notary_id settings r (some w) type now s = refl

module _ (username : String) (windows : ℕ → Option Window) (is_requested : ℕ → Bool)
    (type : SigningType) (now : ℕ) (notary : User) (s : Store)
    (known : find_first (λ u. str_eq u.username username) s.users ≡ some notary)
    (paid : is_free_plan notary.plan ≡ false) where
  answer_known :
      (r : UserSettings)
      → find_first (λ r. r.user_id == notary.id) s.settings ≡ some r
      → r.booking_page_enabled ≡ true
      → (suggest_alternatives username windows is_requested type now s).0
        ≡ ok (days_from 14 0 (skips is_requested) (slots_of notary.id r windows type now s) [])
  unfolding suggest_alternatives get_settings
  answer_known r e shown = ground (arith, known, paid, e, shown)

  answer_new :
      find_first (λ r. r.user_id == notary.id) s.settings ≡ none
      → (default_settings notary.id).booking_page_enabled ≡ true
      → (suggest_alternatives username windows is_requested type now s).0
        ≡ ok (
            days_from 14 0
              (skips is_requested)
              (slots_of notary.id
                (default_settings notary.id)
                windows
                type
                now
                (record s { settings = default_settings notary.id ∷ s.settings }))
              [])
  unfolding suggest_alternatives get_settings
  answer_new e shown = ground (arith, known, paid, e, shown)

-- For a notary with a paid plan and an active page, suggestAlternatives answers with the first five of
-- the slots of fourteen days, in their order and without the requested time, and each of them is
-- accepted by create, if the days are ordinary ones, no block lasts more than four hours and the
-- database is unchanged.
pub suggested_bookable :
    (env : Env) (username : String) (windows : ℕ → Option Window) (is_requested : ℕ → Bool)
    (dto : CreateBookingDto) (notary : User) (s : Store)
    → find_first (λ u. str_eq u.username username) s.users ≡ some notary
    → is_free_plan notary.plan ≡ false
    → (settings_of notary.id s).booking_page_enabled ≡ true
    → ((i : ℕ) (w : Window)
        → windows i ≡ some w
        → IsOrdinary notary.id (settings_of notary.id s) w dto.service_type env.now s)
    → HasShortBlocks (settings_of notary.id s).booking_page_services s
    → let all =
        offers 14 0
          (skips is_requested)
          (slots_of notary.id (settings_of notary.id s) windows dto.service_type env.now s) in
      ((suggest_alternatives username windows is_requested dto.service_type env.now s).0
        ≡ ok (slice 5 all))
      × All
          (λ t.
            (b : Booking) × ((create_for env false (record dto { requested_time = t }) notary s).0
              ≡ ok b))
          (slice 5 all)
unfolding compute_slots
suggested_bookable env username windows is_requested dto notary s known paid enabled ordinary
      short =
    let settings = settings_of notary.id s in
    let slots = slots_of notary.id settings windows dto.service_type env.now s in
    let first_five = λ (t : Store).
      days_from_lem 14 0 5 (skips is_requested)
        (slots_of notary.id settings windows dto.service_type env.now t) [] refl in
    (
      elim (Option-cases (find_first (λ r. r.user_id == notary.id) s.settings)) [
        | inr (r, e) ↦
            let same : settings ≡ r = rw (settings_of, e) refl in
            answer_known username windows is_requested dto.service_type env.now notary s known paid
              r e (subst (λ r. r.booking_page_enabled ≡ true) same enabled)
            ∙ ap (λ l. ok l)
                (subst
                  (λ r.
                    days_from 14 0 (skips is_requested)
                      (slots_of notary.id r windows dto.service_type env.now s) []
                    ≡ slice 5 (offers 14 0 (skips is_requested) slots))
                  same (first_five s))
        | inl e ↦
            let new = default_settings notary.id in
            let same : settings ≡ new = rw (settings_of, e) refl in
            let t : Store = record s { settings = new ∷ s.settings } in
            answer_new username windows is_requested dto.service_type env.now notary s known paid e
              (subst (λ r. r.booking_page_enabled ≡ true) same enabled)
            ∙ ap (λ l. ok l)
                (subst
                  (λ r.
                    days_from 14 0 (skips is_requested)
                      (slots_of notary.id r windows dto.service_type env.now t) []
                    ≡ slice 5 (offers 14 0 (skips is_requested) slots))
                  same
                  (first_five t
                    ∙ ap (slice 5) (
                        offers-same 14 0 (skips is_requested) _ slots (λ i.
                          compute_slots_same notary.id settings new (windows i) dto.service_type
                            env.now s))))
      ],
      slice-All _ 5 _
          (offers-All _ 14 0 (skips is_requested) slots (λ i. bookable_day i (windows i) refl)),
    )
  where
    bookable_day :
        (i : ℕ) (o : Option Window)
        → windows i ≡ o
        → All
            (λ t.
              (b : Booking) × ((create_for env false (record dto { requested_time = t }) notary s).0
                ≡ ok b))
            (compute_slots notary.id (settings_of notary.id s) o dto.service_type env.now s)
    bookable_day i none e = tt
    bookable_day i (some w) e =
        slots_bookable env notary w dto s (λ h. false≢true (sym paid ∙ ap is_free_plan h)) enabled
          (ordinary i w e) short
