-- ===== src/Jobs/Stamps.antt =====
-- Sequences of `update_status` calls on one job: what its status and its time stamps tell.
use mathlib.Core.List.{Memᴰ}
use notaryday_backend.Common.{
  ℕ, ◌≡◌, refl, sym, ap, ◌∙◌, true, ◌==◌, ◌⊎◌, inl, inr, ◌≢◌, some, List, [], ◌∷◌, find_first,
  find_first-update_where_of, arith, Bool-cases, subst,
}
use notaryday_backend.Schema.{
  Job, Store, Env, JobStatus, scanning, complete, cancelled, declined, OthersKeepJobs, eq_status,
  eq_status_sound, SigningType,
}
use notaryday_backend.Tables.{live_job}
use notaryday_backend.Jobs.{update_status, stamp, is_scanback_type}
use notaryday_backend.Jobs.Lifecycle.{
  Transition, update_status_accepted, update_status_refused, Transition-cases, finish, scanned,
  accept, general_signing, inspection, apostille_signing,
}

stamp_live :
    (user_id job_id now : ℕ) (job : Job) (status : JobStatus) (r : Job)
    → live_job user_id job_id (stamp now job status r) ≡ live_job user_id job_id r
unfolding stamp
stamp_live user_id job_id now job status r = ground arith

stamp_status :
    (now : ℕ) (job : Job) (status : JobStatus) → (stamp now job status job).status ≡ status
unfolding stamp
stamp_status now job status = ground arith

stamp_type :
    (now : ℕ) (job : Job) (status : JobStatus)
    → (stamp now job status job).signing_type ≡ job.signing_type
unfolding stamp
stamp_type now job status = ground arith

skips_scanning :
    {t : SigningType} {a : JobStatus}
    → Transition t a complete
    → is_scanback_type t ≡ true
    → a ≢ scanning
    → ⊥
skips_scanning (finish general_signing) wants a = cc
skips_scanning (finish inspection) wants a = cc
skips_scanning (finish apostille_signing) wants a = cc
skips_scanning scanned wants a = a refl

no_way_out :
    {t : SigningType} {a b : JobStatus}
    → Transition t a b
    → ¬ ((a ≡ complete) ⊎ (a ≡ cancelled) ⊎ (a ≡ declined))
no_way_out accept over = ground arith
no_way_out (finish f) over = ground arith
no_way_out _ over = ground arith

module _ (env : Env) (other_calls : ℕ → Store → Store) (user_id job_id : ℕ) where
  -- The database after a sequence of status requests; a refused request is answered and forgotten.
  abbrev pub run : List JobStatus → Store → Store
  run [] s = s
  run (n ∷ ns) s = run ns (update_status env other_calls user_id job_id n s).1

  module _ (keep : OthersKeepJobs other_calls) where
    -- One request: the job has moved along the diagram, or nothing has changed.
    step :
        (n : JobStatus) (s : Store) {job : Job}
        → find_first (live_job user_id job_id) s.jobs ≡ some job
        → (Transition job.signing_type job.status n
            × (find_first
                  (live_job user_id job_id)
                  (update_status env other_calls user_id job_id n s).1.jobs
                ≡ some (stamp env.now job n job)))
          ⊎ ((update_status env other_calls user_id job_id n s).1 ≡ s)
    step n s {job} here = elim (Transition-cases job n) [
      | inl t ↦
          let (k, done, row, jobs, _) =
            update_status_accepted env other_calls user_id job_id n s here keep t in
          inl (
            t,
            rw jobs (
                find_first-update_where_of (λ j. j.id == job_id) (live_job user_id job_id)
                  (stamp env.now job n) s.jobs (λ a h. ground arith)
                  (stamp_live user_id job_id env.now job n) here),
          )
      | inr never ↦
          inr
            (ap (λ r. r.1) (update_status_refused env other_calls user_id job_id n s here never).1)
    ]

    -- A job whose type wants a scanback, and that is not yet scanning or complete, is complete after
    -- a sequence of requests only if one of them was for `scanning`. Other requests write no job
    -- meanwhile.
    pub complete_needs_scanning :
        (ns : List JobStatus) (s : Store) {job last : Job}
        → find_first (live_job user_id job_id) s.jobs ≡ some job
        → is_scanback_type job.signing_type ≡ true
        → job.status ≢ scanning
        → job.status ≢ complete
        → find_first (live_job user_id job_id) (run ns s).jobs ≡ some last
        → last.status ≡ complete
        → Memᴰ scanning ns
    complete_needs_scanning [] s here wants a b there c = ground arith
    complete_needs_scanning (n ∷ ns) s {job} {last} here wants a b there c = elim (step n s here) [
      | inr same ↦ Memᴰ.tail (
          complete_needs_scanning ns s here wants a b
            (subst (λ t. find_first (live_job user_id job_id) (run ns t).jobs ≡ some last) same
              there)
            c)
      | inl (t, moved) ↦ elim (Bool-cases (eq_status n scanning)) [
        | inl now ↦ Memᴰ.head (sym (eq_status_sound n scanning now))
        | inr other ↦
            let status = stamp_status env.now job n in
            Memᴰ.tail (
              complete_needs_scanning ns _ moved
                (ap is_scanback_type (stamp_type env.now job n) ∙ wants)
                (λ e. ground (arith, status))
                (λ e.
                  skips_scanning (subst (Transition job.signing_type job.status) (sym status ∙ e) t)
                    wants a)
                there c)
      ]
    ]

  -- A sequence of requests for a complete, cancelled or declined job leaves the whole database as it
  -- is.
  pub terminal_absorbs :
      (ns : List JobStatus) (s : Store) {job : Job}
      → find_first (live_job user_id job_id) s.jobs ≡ some job
      → (job.status ≡ complete) ⊎ (job.status ≡ cancelled) ⊎ (job.status ≡ declined)
      → run ns s ≡ s
  terminal_absorbs [] s here over = refl
  terminal_absorbs (n ∷ ns) s {job} here over =
      let same =
        ap (λ r. r.1)
          (update_status_refused env other_calls user_id job_id n s here
            (λ t. no_way_out t over)).1 in
      ap (run ns) same ∙ terminal_absorbs ns s here over
