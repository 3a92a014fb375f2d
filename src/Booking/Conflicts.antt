-- ===== src/Booking/Conflicts.antt =====
-- `isSlotBlockTaken` reads only the rows near the requested time; that this loses no conflict.
use notaryday_backend.Common.{
  ℕ, ◌+◌, ◌*◌, ◌-◌, ◌<◌, ◌≤◌, ◌≡◌, Bool, true, false, ◌&&◌, ◌↔◌, List, All, All-map₂,
  any-select-false, false-any-select, arith, or_false, false_or,
}
use notaryday_backend.Schema.{ServiceConfig, Store}
use notaryday_backend.Booking.{
  Block, overlaps_block, job_block, booking_block, is_anchored, is_awaiting, within, pad,
  is_slot_block_taken,
}

-- The stretch [start, stop] meets the block, with `buffer` kept free between them.
abbrev pub Clashes : ℕ → ℕ → ℕ → Block → Type 0
Clashes start stop buffer o = (o.start < stop + buffer) × (start < o.end + buffer)

-- A block of four hours at most.
abbrev pub IsShort : Block → Type 0
IsShort o = o.end ≤ o.start + 240 * 60000

-- Every block in the tables is short.
abbrev pub HasShortBlocks : List ServiceConfig → Store → Type 0
HasShortBlocks services s =
    All (λ j. IsShort (job_block j)) s.jobs
    × All (λ b. IsShort (booking_block services b)) s.bookings

module _ (notary_id : ℕ) (services : List ServiceConfig) (start total_mins buffer_mins : ℕ) where
  -- No job and no pending request of the notary clashes with the stretch.
  abbrev pub IsOpen : Store → Type 0
  IsOpen s =
      All
        (λ j.
          is_anchored notary_id j ≡ true
          → ¬ Clashes start (start + total_mins * 60000) (buffer_mins * 60000) (job_block j))
        s.jobs
      × All
          (λ b.
            is_awaiting notary_id b ≡ true
            → ¬ Clashes start (start + total_mins * 60000) (buffer_mins * 60000)
                (booking_block services b))
          s.bookings

  abbrev taken : Block → Bool
  taken = overlaps_block start (start + total_mins * 60000) (buffer_mins * 60000)

  abbrev near : ℕ → Bool
  near = within (start - pad buffer_mins) (start + total_mins * 60000 + pad buffer_mins)

  near_enough :
      (held : Bool) (o : Block)
      → IsShort o
      → (held && near o.start ≡ true → taken o ≡ false)
      → held ≡ true
      → ¬ Clashes start (start + total_mins * 60000) (buffer_mins * 60000) o
  unfolding overlaps_block
  near_enough held o short h e clash = ground (arith, h)

  not_taken :
      (held : Bool) (o : Block)
      → (held ≡ true → ¬ Clashes start (start + total_mins * 60000) (buffer_mins * 60000) o)
      → held && near o.start ≡ true
      → taken o ≡ false
  unfolding overlaps_block
  not_taken held o h e = ground (arith, h)

  -- If every stored block lasts four hours at most, the time is not taken exactly when it is open,
  -- though only nearby rows are read.
  pub is_slot_block_taken_iff :
      (s : Store)
      → HasShortBlocks services s
      → (is_slot_block_taken notary_id services start total_mins buffer_mins s.jobs s.bookings
          ≡ false)
        ↔ IsOpen s
  unfolding is_slot_block_taken
  is_slot_block_taken_iff s (short_jobs, short_bookings) = (
    (λ h.
        let jobs =
          any-select-false (λ j. is_anchored notary_id j && near j.appointment_time)
            (λ j. taken (job_block j)) s.jobs (or_false h).0 in
        let bookings =
          any-select-false (λ b. is_awaiting notary_id b && near b.requested_time)
            (λ b. taken (booking_block services b)) s.bookings (or_false h).1 in
        (
          All-map₂ _ _ _ s.jobs
              (λ j short here. near_enough (is_anchored notary_id j) (job_block j) short here)
              short_jobs jobs,
          All-map₂ _ _ _ s.bookings
              (λ b short here.
                near_enough (is_awaiting notary_id b) (booking_block services b) short here)
              short_bookings bookings,
        )),
    (λ open_time.
        false_or
          (false-any-select (λ j. is_anchored notary_id j && near j.appointment_time)
            (λ j. taken (job_block j)) s.jobs
            (All-map₂ _ _ _ s.jobs
              (λ j short here. not_taken (is_anchored notary_id j) (job_block j) here) short_jobs
              open_time.0))
          (false-any-select (λ b. is_awaiting notary_id b && near b.requested_time)
            (λ b. taken (booking_block services b)) s.bookings
            (All-map₂ _ _ _ s.bookings
              (λ b short here. not_taken (is_awaiting notary_id b) (booking_block services b) here)
              short_bookings open_time.1))),
  )
