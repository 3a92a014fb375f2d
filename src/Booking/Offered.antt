-- ===== src/Booking/Offered.antt =====
-- The slots of `computeSlots`: what they are, and that each of them can be booked.
use mathlib.Core.List.{Memᴰ}
use notaryday_backend.Common.{
  ℕ, zero, suc, ◌+◌, ◌*◌, ◌-◌, ◌<◌, ◌≤◌, ◌≡◌, refl, sym, ap, ◌∙◌, subst, ◌⊎◌, ◌↔◌, inl, inr, Bool,
  true, false, ◌&&◌, some, List, [], ◌∷◌, map, All, All-map, All-map₂, any, select,
  any-append-false, any-map, any-select-false, Bool-cases, leb, leb→le, arith,
}
use notaryday_backend.Schema.{Job, Booking, User, UserSettings, Store, Env, ok, free, SigningType}
use notaryday_backend.Booking.{
  Block, overlaps_block, job_block, booking_block, block_mins, is_anchored, is_awaiting, within,
}
use notaryday_backend.Booking.Slots.{
  Window, slot_step, occupied, in_notice, is_free, slots_from, rounds, compute_slots,
}
use notaryday_backend.Booking.Conflicts.{
  Clashes, IsShort, HasShortBlocks, IsOpen, is_slot_block_taken_iff,
}
use notaryday_backend.Booking.Offers.{settings_of, create_for_accepts}
use notaryday_backend.Booking.Requests.{CreateBookingDto, create_for}

module _ (total slot_end : ℕ) (free_at : ℕ → Bool) where
  -- A start on the grid of half hours, whose block ends in time, and that is free.
  pub record IsOffer (start t : ℕ) : Type 0 where
    pub round : ℕ
    pub on_grid : t ≡ start + round * slot_step
    pub ends_in_time : t + total * 60000 ≤ slot_end
    pub at_liberty : free_at t ≡ true

  later-IsOffer : (start t : ℕ) → IsOffer (start + slot_step) t → IsOffer start t
  later-IsOffer start t o = record {
    round = suc o.round;
    on_grid = omega (arith, o.on_grid);
    ends_in_time = o.ends_in_time;
    at_liberty = o.at_liberty;
  }

  All-later :
      (start : ℕ) (ts : List ℕ) → All (IsOffer (start + slot_step)) ts → All (IsOffer start) ts
  All-later start [] h = tt
  All-later start (t ∷ ts) (h, hs) = (later-IsOffer start t h, All-later start ts hs)

  slots_from_sound :
      (fuel start : ℕ) → All (IsOffer start) (slots_from fuel total slot_end free_at start)
  unfolding slots_from
  slots_from_sound zero start = tt
  slots_from_sound (suc fuel) start =
      let rest = All-later start _ (slots_from_sound fuel (start + slot_step)) in
      elim (Bool-cases (leb (start + total * 60000) slot_end)) [
        | inr late ↦ rw late tt
        | inl fits ↦ elim (Bool-cases (free_at start)) [
          | inr busy ↦ rw (fits, busy) rest
          | inl idle ↦
              rw (fits, idle)
                (
                  record {
                    round = 0;
                    on_grid = omega arith;
                    ends_in_time = leb→le _ _ fits;
                    at_liberty = idle;
                  },
                  rest,
                )
        ]
      ]

  slots_from_complete :
      (fuel k start : ℕ)
      → k < fuel
      → start + k * slot_step + total * 60000 ≤ slot_end
      → free_at (start + k * slot_step) ≡ true
      → Memᴰ (start + k * slot_step) (slots_from fuel total slot_end free_at start)
  unfolding slots_from
  slots_from_complete zero k start less ends idle = absurd (omega arith)
  slots_from_complete (suc fuel) zero start less ends idle =
      let here : start + 0 * slot_step ≡ start = omega arith in
      let fits : leb (start + total * 60000) slot_end ≡ true = ground arith in
      let idle' : free_at start ≡ true = ap free_at (sym here) ∙ idle in
      rw (here, fits, idle') (Memᴰ.head refl)
  slots_from_complete (suc fuel) (suc k) start less ends idle =
      let next : start + suc k * slot_step ≡ start + slot_step + k * slot_step = omega arith in
      let fits : leb (start + total * 60000) slot_end ≡ true = ground arith in
      let idle' = ap free_at (sym next) ∙ idle in
      let rest = slots_from_complete fuel k (start + slot_step) (omega arith) (omega arith) idle' in
      elim (Bool-cases (free_at start)) [
        | inl here ↦ rw (next, fits, here) (Memᴰ.tail rest)
        | inr busy ↦ rw (next, fits, busy) rest
      ]

  offer_shown :
      (fuel start t : ℕ) (o : IsOffer start t)
      → o.round < fuel
      → Memᴰ t (slots_from fuel total slot_end free_at start)
  offer_shown fuel start t o less =
      let e = o.on_grid in
      subst (λ u. Memᴰ u (slots_from fuel total slot_end free_at start)) (sym e)
        (slots_from_complete fuel o.round start less
          (subst (λ u. u + total * 60000 ≤ slot_end) e o.ends_in_time)
          (subst (λ u. free_at u ≡ true) e o.at_liberty))

fits_rounds :
    (w : Window) (k t total : ℕ)
    → t ≡ w.slot_start + k * slot_step
    → t + total * 60000 ≤ w.slot_end
    → k < rounds w
fits_rounds w k t total e h = omega arith

compute_slots_offers :
    (notary_id : ℕ) (settings : UserSettings) (w : Window) (type : SigningType) (now : ℕ)
    (s : Store)
    → let total = block_mins settings.booking_page_services type in
      let free_at = is_free settings now total (occupied notary_id settings w s) in
      All
        (IsOffer total w.slot_end free_at w.slot_start)
        (compute_slots notary_id settings (some w) type now s)
      × ((t : ℕ)
          → IsOffer total w.slot_end free_at w.slot_start t
          → Memᴰ t (compute_slots notary_id settings (some w) type now s))
unfolding compute_slots
compute_slots_offers notary_id settings w type now s =
    let total = block_mins settings.booking_page_services type in
    let free_at = is_free settings now total (occupied notary_id settings w s) in
    (
      slots_from_sound total w.slot_end free_at (rounds w) w.slot_start,
      λ t o.
          offer_shown total w.slot_end free_at (rounds w) w.slot_start t o
            (fits_rounds w o.round t total o.on_grid o.ends_in_time),
    )

All-lookup : (P : ℕ → Type 0) (xs : List ℕ) {t : ℕ} → All P xs → Memᴰ t xs → P t
All-lookup P [] h m = elim m [ ]
All-lookup P (x ∷ xs) (h, hs) (Memᴰ.head e) = subst P (sym e) h
All-lookup P (x ∷ xs) (h, hs) (Memᴰ.tail m) = All-lookup P xs hs m

-- A slot is shown exactly if it starts a whole number of half hours after the opening, ends before
-- the closing, keeps the notice and the advance limit, and meets no block with its buffer.
pub compute_slots_iff :
    (notary_id : ℕ) (settings : UserSettings) (w : Window) (type : SigningType) (now : ℕ)
    (s : Store) (t : ℕ)
    → Memᴰ t (compute_slots notary_id settings (some w) type now s)
      ↔ IsOffer
          (block_mins settings.booking_page_services type)
          w.slot_end
          (is_free settings now
            (block_mins settings.booking_page_services type)
            (occupied notary_id settings w s))
          w.slot_start
          t
compute_slots_iff notary_id settings w type now s t =
    let (sound, complete) = compute_slots_offers notary_id settings w type now s in
    (All-lookup _ _ sound, complete t)

notice_of :
    (settings : UserSettings) (now t : ℕ)
    → in_notice settings now t ≡ true
    → (now + settings.booking_min_notice_hours * 3600000 ≤ t)
      × ((settings.booking_advance_limit_days ≡ 0)
          ⊎ (t ≤ now + settings.booking_advance_limit_days * 86400000))
notice_of settings now t h = ground arith

starts_later : (start t k : ℕ) → t ≡ start + k * slot_step → start ≤ t
starts_later start t k e = omega arith

module _ (settings : UserSettings) (now total : ℕ) (blocks : List Block) (t : ℕ)
    (idle : is_free settings now total blocks t ≡ true) where
  free_no_clash :
      any (overlaps_block t (t + total * 60000) (settings.booking_buffer_mins * 60000)) blocks
      ≡ false
  unfolding is_free
  free_no_clash = ground arith

  free_in_notice : in_notice settings now t ≡ true
  unfolding is_free
  free_in_notice = ground arith

module _ (notary_id : ℕ) (settings : UserSettings) (w : Window) (type : SigningType) (now : ℕ)
    (s : Store) where
  abbrev total : ℕ
  total = block_mins settings.booking_page_services type

  abbrev buffer : ℕ
  buffer = settings.booking_buffer_mins * 60000

  -- The working hours lie within the day, with the buffer after them, and the buffer is of two
  -- hours at most: then the rows that `computeSlots` reads are all that matter.
  pub record IsOrdinary : Type 0 where
    pub opens_in_day : w.day ≤ w.slot_start
    pub closes_in_day : w.slot_end + buffer ≤ w.next_day
    pub buffer_small : settings.booking_buffer_mins ≤ 120

  close_enough :
      (held : Bool) (o : Block) (t : ℕ)
      → IsOrdinary
      → w.slot_start ≤ t
      → t + total * 60000 ≤ w.slot_end
      → IsShort o
      → (held && within (w.day - 6 * 3600000) w.next_day o.start ≡ true
          → overlaps_block t (t + total * 60000) buffer o ≡ false)
      → held ≡ true
      → ¬ Clashes t (t + total * 60000) buffer o
  unfolding overlaps_block
  close_enough held o t day starts ends short h e clash = ground (arith, h)

  free_slot-IsOpen :
      (t : ℕ)
      → IsOrdinary
      → HasShortBlocks settings.booking_page_services s
      → w.slot_start ≤ t
      → t + total * 60000 ≤ w.slot_end
      → is_free settings now total (occupied notary_id settings w s) t ≡ true
      → IsOpen notary_id settings.booking_page_services t total settings.booking_buffer_mins s
  unfolding occupied
  free_slot-IsOpen t day (short_jobs, short_bookings) starts ends idle =
      let lower : ℕ = w.day - 6 * 3600000 in
      let job_test =
        λ (j : Job). is_anchored notary_id j && within lower w.next_day j.appointment_time in
      let booking_test =
        λ (b : Booking). is_awaiting notary_id b && within lower w.next_day b.requested_time in
      let block_of = booking_block settings.booking_page_services in
      let test = overlaps_block t (t + total * 60000) buffer in
      let no_clash = free_no_clash settings now total _ t idle in
      let (no_job, no_booking) =
        any-append-false test (map job_block (select job_test s.jobs))
          (map block_of (select booking_test s.bookings)) no_clash in
      (
        All-map₂ _ _ _ s.jobs
            (λ j short here.
              close_enough (is_anchored notary_id j) (job_block j) t day starts ends short here)
            short_jobs
            (any-select-false job_test (λ j. test (job_block j)) s.jobs
              (sym (any-map test job_block (select job_test s.jobs)) ∙ no_job)),
        All-map₂ _ _ _ s.bookings
            (λ b short here.
              close_enough (is_awaiting notary_id b) (block_of b) t day starts ends short here)
            short_bookings
            (any-select-false booking_test (λ b. test (block_of b)) s.bookings
              (sym (any-map test block_of (select booking_test s.bookings)) ∙ no_booking)),
      )

-- Every slot that the page shows can be booked: a request for it passes every check and is
-- accepted, if the notary has a paid plan and an active page, nothing has changed since, the day is
-- an ordinary one and no block lasts more than four hours.
pub slots_bookable :
    (env : Env) (notary : User) (w : Window) (dto : CreateBookingDto) (s : Store)
    → (notary.plan ≡ free → ⊥)
    → (settings_of notary.id s).booking_page_enabled ≡ true
    → IsOrdinary notary.id (settings_of notary.id s) w dto.service_type env.now s
    → HasShortBlocks (settings_of notary.id s).booking_page_services s
    → All
        (λ t.
          (b : Booking) × ((create_for env false (record dto { requested_time = t }) notary s).0
            ≡ ok b))
        (compute_slots notary.id (settings_of notary.id s) (some w) dto.service_type env.now s)
slots_bookable env notary w dto s paid enabled day short =
    let settings = settings_of notary.id s in
    let total = block_mins settings.booking_page_services dto.service_type in
    let free_at = is_free settings env.now total (occupied notary.id settings w s) in
    let kept = λ (t : ℕ) (o : IsOffer total w.slot_end free_at w.slot_start t).
      notice_of settings env.now t
        (free_in_notice settings env.now total (occupied notary.id settings w s) t o.at_liberty) in
    All-map _ _ (compute_slots notary.id settings (some w) dto.service_type env.now s)
      (λ t o.
        create_for_accepts env (record dto { requested_time = t }) notary s
          (record {
            paid_plan = paid;
            page_enabled = enabled;
            notice_kept = (kept t o).0;
            not_taken =
                (is_slot_block_taken_iff notary.id settings.booking_page_services t total
                    settings.booking_buffer_mins s short).1
                  (free_slot-IsOpen notary.id settings w dto.service_type env.now s t day short
                    (starts_later w.slot_start t o.round o.on_grid) o.ends_in_time o.at_liberty);
          })
          (kept t o).1)
      (compute_slots_offers notary.id settings w dto.service_type env.now s).0
