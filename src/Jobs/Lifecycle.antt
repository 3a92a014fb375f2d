-- ===== src/Jobs/Lifecycle.antt =====
-- The life cycle of a job as a relation, and that `update_status` follows exactly that relation.
use notaryday_backend.Common.{
  ℕ, String, ◌≡◌, refl, ap, ◌∙◌, ◌==◌, some, List, [], sym, find_first, update_where,
  find_first-weaken, find_first-update_where, arith, ◌⊎◌, inl, inr, ◌&&◌, Bool-cases, any,
}
use notaryday_backend.Schema.{
  Job, Store, Env, ok, err, bad_request, JobStatus, pending, pending_review, confirmed, in_progress,
  scanning, complete, cancelled, declined, SigningType, general, field_inspection, apostille,
  OthersKeepJobs, eq_status, then_pure,
}
use notaryday_backend.Tables.{live_job, update_job}
use notaryday_backend.Jobs.Frame.{after_status-ok, after_status_jobs}
use notaryday_backend.Jobs.{
  check_transition, update_status, after_status, find_one, stamp, transitions, is_scanback_type,
}

-- The signing types after which nothing has to be scanned and sent back.
pub data NeedsNoScanback : SigningType → Type 0 where
  general_signing : NeedsNoScanback general
  inspection : NeedsNoScanback field_inspection
  apostille_signing : NeedsNoScanback apostille

-- The steps of a job of a signing type.
pub data Transition (t : SigningType) : JobStatus → JobStatus → Type 0 where
  accept : Transition t pending confirmed
  withdraw : Transition t pending cancelled
  approve : Transition t pending_review confirmed
  refuse : Transition t pending_review declined
  start : Transition t confirmed in_progress
  cancel : Transition t confirmed cancelled
  scan : Transition t in_progress scanning
  finish : NeedsNoScanback t → Transition t in_progress complete
  abandon : Transition t in_progress cancelled
  scanned : Transition t scanning complete
  resume : Transition t scanning in_progress

ruleset edges = (
  accept, withdraw, approve, refuse, start, cancel, scan, finish, abandon, scanned, resume,
  general_signing, inspection, apostille_signing,
)

pub check_transition-Transition :
    (job : Job) (new_status : JobStatus) (s : Store)
    → check_transition job new_status s ≡ (ok tt, s)
    → Transition job.signing_type job.status new_status
unfolding check_transition
check_transition-Transition job new_status s h = grind (arith, edges)

pub Transition-check_transition :
    {t : SigningType} {a b : JobStatus} (job : Job) (s : Store)
    → Transition t a b
    → job.signing_type ≡ t
    → job.status ≡ a
    → check_transition job b s ≡ (ok tt, s)
unfolding check_transition
Transition-check_transition job s accept p q = ground arith
Transition-check_transition job s (finish general_signing) p q = ground arith
Transition-check_transition job s (finish inspection) p q = ground arith
Transition-check_transition job s (finish apostille_signing) p q = ground arith
Transition-check_transition job s _ p q = ground arith

-- Any database serves to decide a transition: this one is empty.
no_rows : Store
no_rows = record {
  users = [];
  settings = [];
  reset_tokens = [];
  signing_defaults = [];
  jobs = [];
  bookings = [];
  invoices = [];
  pdfs = [];
  journal = [];
  day_plans = [];
  webhook_events = [];
  next_id = 0;
  outbox = [];
}

check_transition-cases :
    (job : Job) (new_status : JobStatus) (s : Store)
    → (check_transition job new_status s ≡ (ok tt, s))
      ⊎ ((message : String) × (check_transition job new_status s ≡ (err (bad_request message), s)))
unfolding check_transition
check_transition-cases job new_status s =
    elim (Bool-cases (any (eq_status new_status) (transitions job.status))) [
      | inr bad ↦ inr ("Cannot transition", rw bad)
      | inl listed ↦
          elim (Bool-cases (
            eq_status new_status complete
            && (eq_status job.status in_progress && is_scanback_type job.signing_type))) [
              | inl gated ↦ inr ("Requires SCANNING step before COMPLETE", rw (listed, gated))
              | inr free ↦ inl (rw (listed, free))
            ]
    ]

pub Transition-cases :
    (job : Job) (new_status : JobStatus)
    → Transition job.signing_type job.status new_status
      ⊎ (¬ Transition job.signing_type job.status new_status)
Transition-cases job new_status = elim (check_transition-cases job new_status no_rows) [
  | inl fine ↦ inl (check_transition-Transition job new_status no_rows fine)
  | inr (message, bad) ↦
      inr (λ t.
        absurd (ground (arith, sym bad ∙ Transition-check_transition job no_rows t refl refl)))
]

stamp_id : (now : ℕ) (job : Job) (status : JobStatus) (r : Job) → (stamp now job status r).id ≡ r.id
unfolding stamp
stamp_id now job status r = ground arith

stamp_status :
    (now : ℕ) (job : Job) (status : JobStatus) (r : Job) → (stamp now job status r).status ≡ status
unfolding stamp
stamp_status now job status r = ground arith

-- The jobs table after the write of `update_status`.
abbrev pub written : ℕ → ℕ → Job → JobStatus → Store → List Job
written now job_id job new_status s =
    update_where (λ j. j.id == job_id) (stamp now job new_status) s.jobs

module _ (env : Env) (other_calls : ℕ → Store → Store) (user_id job_id : ℕ) (new_status : JobStatus)
    (s : Store) {job : Job} (here : find_first (live_job user_id job_id) s.jobs ≡ some job) where
  row_written :
      (k : Job) × (find_first (λ j. j.id == job_id) (written env.now job_id job new_status s)
        ≡ some k)
      × (k.status ≡ new_status)
  row_written =
      let (k, old) =
        find_first-weaken (live_job user_id job_id) (λ j. j.id == job_id) s.jobs
          (λ a h. ground arith) here in
      (
        stamp env.now job new_status k,
        find_first-update_where (λ j. j.id == job_id) (stamp env.now job new_status) s.jobs
            (λ a h. rw (stamp_id env.now job new_status a) h) old,
        stamp_status env.now job new_status k,
      )

  -- A request for a step of the diagram is answered with the job's row after the write, which has
  -- the new status, and the write of the status, with its time stamps, is all that happens to the jobs, if no other
  -- request writes a job meanwhile.
  pub update_status_accepted :
      OthersKeepJobs other_calls
      → Transition job.signing_type job.status new_status
      → (updated : Job) × ((update_status env other_calls user_id job_id new_status s).0
          ≡ ok updated)
        × (find_first (λ j. j.id == job_id) (written env.now job_id job new_status s)
            ≡ some updated)
        × ((update_status env other_calls user_id job_id new_status s).1.jobs
            ≡ written env.now job_id job new_status s)
        × (updated.status ≡ new_status)
  unfolding update_status find_one update_job
  update_status_accepted keep t =
      let (k, old, now_new) = row_written in
      let done =
        then_pure
          (after_status env other_calls user_id job new_status
            (record s { jobs = written env.now job_id job new_status s }))
          k (after_status-ok env other_calls user_id job new_status _) in
      let passed = Transition-check_transition job s t refl refl in
      (
        k,
        rw (here, passed, old) (ap (λ r. r.0) done),
        old,
        rw (here, passed, old)
            (ap (λ r. r.1.jobs) done
              ∙ after_status_jobs env other_calls keep user_id job new_status _),
        now_new,
      )

  -- A request that is no step of the diagram is refused, and nothing at all is written.
  pub update_status_refused :
      ¬ Transition job.signing_type job.status new_status
      → (message : String) × (update_status env other_calls user_id job_id new_status s
          ≡ (err (bad_request message), s))
  unfolding update_status find_one
  update_status_refused never = elim (check_transition-cases job new_status s) [
    | inl fine ↦ absurd (never (check_transition-Transition job new_status s fine))
    | inr (message, bad) ↦ (message, rw (here, bad))
  ]
