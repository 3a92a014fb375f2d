-- ===== src/Jobs/Keys.antt =====
-- src/modules/jobs/jobs.service.ts: the idempotency key of `create`.
use notaryday_backend.Common.{ℕ, ◌≡◌, Option, some, find_first, any, arith}
use notaryday_backend.Schema.{Job, Store, Env, ok}
use notaryday_backend.Jobs.Editing.{CreateJobDto, keyed_job, insert_job, create}

module _ (env : Env) (other_calls : Store → Store) (user_id key : ℕ) (dto : CreateJobDto)
    (import_id : Option ℕ) (s : Store) where
  -- A job that was returned for a key is what the next search for the key finds.
  created_keyed :
      {job : Job}
      → (create env other_calls user_id dto (some key) import_id s).0 ≡ ok job
      → keyed_job user_id (some key) (create env other_calls user_id dto (some key) import_id s).1
        ≡ some job
  unfolding create insert_job find_first any
  created_keyed h = ground arith

known_key :
    (env : Env) (other_calls : Store → Store) (user_id key : ℕ) (dto : CreateJobDto)
    (import_id : Option ℕ) (s : Store) {job : Job}
    → keyed_job user_id (some key) s ≡ some job
    → create env other_calls user_id dto (some key) import_id s ≡ (ok job, s)
unfolding create
known_key env other_calls user_id key dto import_id s h = ground arith

-- A request to create a job that is repeated with the same key, whatever else it holds, is answered
-- with the job of the first request and changes nothing, also when the first answer came from a
-- request of another client that was stored between its search and its insert.
pub create_twice :
    (env env' : Env) (other_calls other_calls' : Store → Store) (user_id key : ℕ)
    (dto dto' : CreateJobDto) (import_id import_id' : Option ℕ) (s : Store) {job : Job}
    → (create env other_calls user_id dto (some key) import_id s).0 ≡ ok job
    → create env' other_calls' user_id dto'
        (some key)
        import_id'
        (create env other_calls user_id dto (some key) import_id s).1
      ≡ (ok job, (create env other_calls user_id dto (some key) import_id s).1)
create_twice env env' other_calls other_calls' user_id key dto dto' import_id import_id' s done =
    known_key env' other_calls' user_id key dto' import_id' _
      (created_keyed env other_calls user_id key dto import_id s done)
