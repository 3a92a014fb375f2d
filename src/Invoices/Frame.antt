-- ===== src/Invoices/Frame.antt =====
-- `generate` writes no job.
use notaryday_backend.Common.{
  ℕ, zero, suc, String, refl, Option, Bool, true, false, find_first, ap, arith, Bool-cases, inl,
  inr,
}
use notaryday_backend.Schema.{
  Job, Invoice, Store, M, found, if_some_jobs, complete, eq_status, KeepsJobs, OthersKeepJobs,
  continue_jobs, found_store,
}
use notaryday_backend.Tables.{live_job, update_invoice}
use notaryday_backend.Invoices.{
  invoice_for, refresh_existing, settle, insert_attempt, allocate, generate_for, generate,
}

refresh_existing_jobs :
    (i : Invoice) (user_id : ℕ) (email : String) (name : Option String)
    → KeepsJobs (refresh_existing i user_id email name)
unfolding refresh_existing
refresh_existing_jobs i user_id email name s = ground arith

settle_jobs :
    (retry : M (Option Invoice)) (user_id : ℕ) (job : Job) (r : ℕ × Bool)
    → KeepsJobs retry
    → KeepsJobs (settle retry user_id job r)
unfolding settle update_invoice
settle_jobs retry user_id job (id, true) k s = refl
settle_jobs retry user_id job (id, false) k s =
    if_some_jobs (invoice_for job.id s) _ retry (λ i. refresh_existing_jobs i user_id _ _) k s

module _ (year : ℕ) (other_calls : ℕ → Store → Store) (keep : OthersKeepJobs other_calls) where
  insert_attempt_jobs :
      (n user_id : ℕ) (job : Job) → KeepsJobs (insert_attempt year other_calls n user_id job)
  unfolding insert_attempt
  insert_attempt_jobs n user_id job s = ground (arith, keep n s)

  allocate_jobs :
      (rounds n user_id : ℕ) (job : Job)
      → KeepsJobs (allocate year other_calls rounds n user_id job)
  unfolding allocate
  allocate_jobs zero n user_id job s = refl
  allocate_jobs (suc rounds) n user_id job s =
      continue_jobs (insert_attempt year other_calls n user_id job s)
        (settle (allocate year other_calls rounds (suc n) user_id job) user_id job) s
        (insert_attempt_jobs n user_id job s)
        (λ r. settle_jobs _ user_id job r (allocate_jobs rounds (suc n) user_id job))

  generate_for_jobs :
      (user_id : ℕ) (job : Job) → KeepsJobs (generate_for year other_calls user_id job)
  unfolding generate_for
  generate_for_jobs user_id job s = elim (Bool-cases (eq_status job.status complete)) [
    | inl done ↦ rw done (
        if_some_jobs (invoice_for job.id s) _ _ (λ i. refresh_existing_jobs i user_id _ _)
          (allocate_jobs 5 1 user_id job) s)
    | inr early ↦ rw early refl
  ]

  pub generate_jobs : (user_id job_id : ℕ) → KeepsJobs (generate year other_calls user_id job_id)
  unfolding generate
  generate_jobs user_id job_id s =
      continue_jobs (found (find_first (live_job user_id job_id) s.jobs) "Job not found" s)
        (generate_for year other_calls user_id) s
        (ap (λ (t : Store). t.jobs) (found_store (find_first (live_job user_id job_id) s.jobs) _ s))
        (generate_for_jobs user_id)
