-- ===== src/Citt/Neighbours.antt =====
-- src/modules/citt/citt.service.ts: which appointments a check takes for the neighbouring ones.
use mathlib.Core.List.{Memᴰ}
use notaryday_backend.Common.{
  ℕ, ◌≤◌, ◌<◌, ◌≡◌, ◌⊎◌, refl, Bool, true, false, ◌&&◌, ◌||◌, Option, none, some, List, [], ◌∷◌,
  All, All-map, Bool-cases, inl, inr, arith, ltb, leb, if◌then◌else◌,
}
use notaryday_backend.Schema.{Job, Store, confirmed, in_progress, eq_status, eq_status_sound}
use notaryday_backend.Jobs.{earliest}
use notaryday_backend.Citt.{CittCheckDto, latest}
use notaryday_backend.Citt.Check.{is_anchor, prev_of, next_of}

-- A confirmed or running job of the user on the day of the check.
pub record IsAppointment (user_id : ℕ) (dto : CittCheckDto) (j : Job) : Type 0 where
  pub owned : j.user_id ≡ user_id
  pub kept : j.deleted_at ≡ none
  pub stands : (j.status ≡ confirmed) ⊎ (j.status ≡ in_progress)
  pub from_start : dto.day_start ≤ j.appointment_time
  pub in_day : j.appointment_time < dto.day_end

-- The last of the user's appointments of the day at the offered time or before it, or none where
-- there is none.
pub data IsPrevious (user_id : ℕ) (dto : CittCheckDto) (js : List Job) : Option Job → Type 0 where
  none_before :
      All (λ k. IsAppointment user_id dto k → ¬ (k.appointment_time ≤ dto.appointment_time)) js
      → IsPrevious user_id dto js none
  last_before :
      {j : Job}
      → Memᴰ j js
      → IsAppointment user_id dto j
      → j.appointment_time ≤ dto.appointment_time
      → All
          (λ k.
            IsAppointment user_id dto k
            → k.appointment_time ≤ dto.appointment_time
            → k.appointment_time ≤ j.appointment_time)
          js
      → IsPrevious user_id dto js (some j)

-- The first of the user's appointments of the day after the offered time, or none where there is none.
pub data IsNext (user_id : ℕ) (dto : CittCheckDto) (js : List Job) : Option Job → Type 0 where
  none_after :
      All (λ k. IsAppointment user_id dto k → ¬ (dto.appointment_time < k.appointment_time)) js
      → IsNext user_id dto js none
  first_after :
      {j : Job}
      → Memᴰ j js
      → IsAppointment user_id dto j
      → dto.appointment_time < j.appointment_time
      → All
          (λ k.
            IsAppointment user_id dto k
            → dto.appointment_time < k.appointment_time
            → j.appointment_time ≤ k.appointment_time)
          js
      → IsNext user_id dto js (some j)

-- One of the jobs that `p` selects, before or after none of which `Before` puts it.
data IsExtreme (Before : ℕ → ℕ → Type 0) (p : Job → Bool) (js : List Job)
    : Option Job → Type 0 where
  nothing : All (λ k. p k ≡ false) js → IsExtreme Before p js none
  extreme :
      {j : Job}
      → Memᴰ j js
      → p j ≡ true
      → All (λ k. p k ≡ true → Before k.appointment_time j.appointment_time) js
      → IsExtreme Before p js (some j)

abbrev AtMost : ℕ → ℕ → Type 0
AtMost a b = a ≤ b

abbrev AtLeast : ℕ → ℕ → Type 0
AtLeast a b = b ≤ a

module _ (p : Job → Bool) where
  pass_over :
      (Before : ℕ → ℕ → Type 0) (j : Job) (js : List Job) {o : Option Job}
      → p j ≡ false
      → IsExtreme Before p js o
      → IsExtreme Before p (j ∷ js) o
  pass_over Before j js out (nothing h) = nothing (out, h)
  pass_over Before j js out (extreme m e h) = extreme (Memᴰ.tail m) e ((λ e'. cc), h)

  latest-IsExtreme : (js : List Job) → IsExtreme AtMost p js (latest p js)
  unfolding latest
  latest-IsExtreme [] = nothing tt
  latest-IsExtreme (j ∷ js) = elim (Bool-cases (p j)) [
    | inr out ↦ rw out (pass_over AtMost j js out (latest-IsExtreme js))
    | inl here ↦ rw here (chosen (latest p js) here (latest-IsExtreme js))
  ]
    where
      chosen :
          (o : Option Job)
          → p j ≡ true
          → IsExtreme AtMost p js o
          → IsExtreme AtMost p (j ∷ js) (
              some (elim o [
                | none ↦ j
                | some k ↦ if leb k.appointment_time j.appointment_time then j else k
              ]))
      chosen none here (nothing h) =
          extreme (Memᴰ.head refl) here ((λ _. omega arith), All-map _ _ js (λ x out e. cc) h)
      chosen (some k) here (extreme m e h) =
          elim (Bool-cases (leb k.appointment_time j.appointment_time)) [
            | inl b ↦ rw b (
                extreme (Memᴰ.head refl) here
                  ((λ _. omega arith), All-map _ _ js (λ x f e'. ground (arith, f e', b)) h))
            | inr b ↦ rw b (extreme (Memᴰ.tail m) e ((λ _. ground (arith, b)), h))
          ]

  earliest-IsExtreme : (js : List Job) → IsExtreme AtLeast p js (earliest p js)
  unfolding earliest
  earliest-IsExtreme [] = nothing tt
  earliest-IsExtreme (j ∷ js) = elim (Bool-cases (p j)) [
    | inr out ↦ rw out (pass_over AtLeast j js out (earliest-IsExtreme js))
    | inl here ↦ rw here (chosen (earliest p js) here (earliest-IsExtreme js))
  ]
    where
      chosen :
          (o : Option Job)
          → p j ≡ true
          → IsExtreme AtLeast p js o
          → IsExtreme AtLeast p (j ∷ js) (
              some (elim o [
                | none ↦ j
                | some k ↦ if leb j.appointment_time k.appointment_time then j else k
              ]))
      chosen none here (nothing h) =
          extreme (Memᴰ.head refl) here ((λ _. omega arith), All-map _ _ js (λ x out e. cc) h)
      chosen (some k) here (extreme m e h) =
          elim (Bool-cases (leb j.appointment_time k.appointment_time)) [
            | inl b ↦ rw b (
                extreme (Memᴰ.head refl) here
                  ((λ _. omega arith), All-map _ _ js (λ x f e'. ground (arith, f e', b)) h))
            | inr b ↦ rw b (extreme (Memᴰ.tail m) e ((λ _. ground (arith, b)), h))
          ]

module _ (user_id : ℕ) (dto : CittCheckDto) where
  is_anchor→IsAppointment : (j : Job) → is_anchor user_id dto j ≡ true → IsAppointment user_id dto j
  is_anchor→IsAppointment j h = elim (Bool-cases (eq_status j.status confirmed)) [
    | inl e ↦ record {
      owned = ground (arith, h);
      kept = ground (arith, h);
      stands = inl (eq_status_sound _ _ e);
      from_start = ground (arith, h);
      in_day = ground (arith, h);
    }
    | inr e ↦ record {
      owned = ground (arith, h);
      kept = ground (arith, h);
      stands = inr (eq_status_sound _ _ (ground (arith, h, e)));
      from_start = ground (arith, h);
      in_day = ground (arith, h);
    }
  ]

  IsAppointment→is_anchor : (j : Job) → IsAppointment user_id dto j → is_anchor user_id dto j ≡ true
  IsAppointment→is_anchor j h =
      let stands : (eq_status j.status confirmed || eq_status j.status in_progress) ≡ true =
        elim h.stands [ inl e ↦ rw e refl | inr e ↦ rw e refl ] in
      let owned = h.owned in
      let kept = h.kept in let from_start = h.from_start in let in_day = h.in_day in ground arith

  pub prev_of-IsPrevious : (s : Store) → IsPrevious user_id dto s.jobs (prev_of user_id dto s)
  prev_of-IsPrevious s = described _ (latest-IsExtreme _ s.jobs)
    where
      described :
          (o : Option Job)
          → IsExtreme AtMost
              (λ j. is_anchor user_id dto j && leb j.appointment_time dto.appointment_time)
              s.jobs
              o
          → IsPrevious user_id dto s.jobs o
      described none (nothing h) =
          none_before (
            All-map _ _ s.jobs (λ k out a e. ground (arith, out, IsAppointment→is_anchor k a, e)) h)
      described (some j) (extreme m e h) =
          last_before m (is_anchor→IsAppointment j (ground (arith, e))) (ground (arith, e))
            (All-map _ _ s.jobs (λ k f a b. f (ground (arith, IsAppointment→is_anchor k a, b))) h)

  pub next_of-IsNext : (s : Store) → IsNext user_id dto s.jobs (next_of user_id dto s)
  next_of-IsNext s = described _ (earliest-IsExtreme _ s.jobs)
    where
      described :
          (o : Option Job)
          → IsExtreme AtLeast
              (λ j. is_anchor user_id dto j && ltb dto.appointment_time j.appointment_time)
              s.jobs
              o
          → IsNext user_id dto s.jobs o
      described none (nothing h) =
          none_after (
            All-map _ _ s.jobs (λ k out a e. ground (arith, out, IsAppointment→is_anchor k a, e)) h)
      described (some j) (extreme m e h) =
          first_after m (is_anchor→IsAppointment j (ground (arith, e))) (ground (arith, e))
            (All-map _ _ s.jobs (λ k f a b. f (ground (arith, IsAppointment→is_anchor k a, b))) h)
