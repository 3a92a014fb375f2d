-- ===== src/Schema/Monad.antt =====
-- The database with the messages that a call sends, and the monad of the services.
use notaryday_backend.Common.{
  ℕ, ◌≡◌, ◌∙◌, refl, some, none, suc, String, Option, List, [], ◌∷◌, ◌++◌, Bool, true, false,
}
use notaryday_backend.Common.Int.{ℤ}
use notaryday_backend.Schema.Enums.{PlanTier}
use notaryday_backend.Schema.Rows.{
  User, PasswordResetToken, UserSettings, SigningTypeDefault, Job, Booking, Invoice, StoredPdf,
  JournalEntry, DayPlan, WebhookEvent,
}

-- What a service hands to Redis queues, to the analytics and to the mailer. All of it is
-- best-effort in the source: a failure is caught and logged, and the call goes on.
pub data Effect : Type 0 where
  sync_job delete_event : ℕ → ℕ → Effect
  scanback_reminder : ℕ → ℕ → Effect
  client_eta : ℕ → ℕ → ℕ → Effect
  generate_pdf : ℕ → ℕ → Effect
  invoice_email : ℕ → ℕ → ℕ → Effect
  invoice_mail : ℕ → String → Effect
  track : String → ℕ → Effect
  route_cache_del : ℕ → ℕ → Effect
  notify : String → ℕ → Effect
  push : ℕ → Effect
  email : String → Effect
  billing_event : ℕ → Effect
  subscription_changed : String → ℕ → PlanTier → Effect
  conversion signup_conversion : ℕ → Effect

pub record Store : Type 0 where
  pub users : List User
  pub reset_tokens : List PasswordResetToken
  pub settings : List UserSettings
  pub signing_defaults : List SigningTypeDefault
  pub jobs : List Job
  pub bookings : List Booking
  pub invoices : List Invoice
  pub pdfs : List StoredPdf
  pub journal : List JournalEntry
  pub day_plans : List DayPlan
  pub webhook_events : List WebhookEvent
  pub next_id : ℕ
  pub outbox : List Effect

pub data HttpError : Type 0 where
  not_found bad_request unauthorized conflict_error server_error : String → HttpError

pub data Result (A : Type 0) : Type 0 where
  ok : A → Result A
  err : HttpError → Result A

abbrev pub M : Type 0 → Type 0
M A = Store → Result A × Store

abbrev pub continue : {A B : Type 0} → Result A × Store → (A → M B) → Result B × Store
continue (ok a, s) f = f a s
continue (err e, s) f = (err e, s)

infixl 5 ◌>>=◌ ◌>>◌
abbrev pub ◌>>=◌ : {A B : Type 0} → M A → (A → M B) → M B
◌>>=◌ m f s = continue (m s) f

abbrev pub ◌>>◌ : {B : Type 0} → M (Unit {0}) → M B → M B
m >> k = m >>= λ _. k

abbrev pub pure : {A : Type 0} → A → M A
pure a s = (ok a, s)

abbrev pub throw : {A : Type 0} → HttpError → M A
throw e s = (err e, s)

-- `if (!row) throw new NotFoundException(message)`
abbrev pub found : {A : Type 0} → Option A → String → M A
found none message = throw (not_found message)
found (some a) message = pure a

-- `if (row) return f(row); return rest`
abbrev pub if_some : {A B : Type 0} → Option A → (A → M B) → M B → M B
if_some none f rest s = rest s
if_some (some a) f rest s = f a s

abbrev pub when : Bool → M (Unit {0}) → M (Unit {0})
when true m s = m s
when false m s = (ok tt, s)

-- `try { await m } catch (e) { log }`: what `m` wrote before it failed stays written.
abbrev pub attempt : {A : Type 0} → M A → M (Unit {0})
attempt m s = (ok tt, (m s).1)

-- `prisma.$transaction`: a failure undoes what was written.
abbrev pub settle_transaction : {A : Type 0} → Store → Result A × Store → Result A × Store
settle_transaction old (ok a, s) = (ok a, s)
settle_transaction old (err e, s) = (err e, old)

abbrev pub transaction : {A : Type 0} → M A → M A
transaction m s = settle_transaction s (m s)

abbrev pub get_store : M Store
get_store s = (ok s, s)

abbrev pub emit : Effect → M (Unit {0})
emit e s = (ok tt, record s { outbox = s.outbox ++ e ∷ [] })

-- A new identifier (`@default(cuid())`).
abbrev pub fresh_id : M ℕ
fresh_id s = (ok s.next_id, record s { next_id = suc s.next_id })

-- What the code asks of the clock, of the geocoder (geocoding.service.ts) and of OpenRouteService
-- (`OrsService.getRoute`), for the length of one call.
pub record Route : Type 0 where
  pub distance_miles : ℕ
  pub drive_time_mins : ℕ

pub record Point : Type 0 where
  pub lat : ℤ
  pub lng : ℤ

pub record Env : Type 0 where
  pub now : ℕ
  pub year : ℕ
  pub geocode : String → Option Point
  pub get_route : Point → Point → Option Route
  -- `Math.round(haversineMiles(..) * 100) / 100`.
  pub haversine_miles : Point → Point → ℕ

-- A call that writes no job.
abbrev pub KeepsJobs : {A : Type 0} → M A → Type 0
KeepsJobs m = (s : Store) → (m s).1.jobs ≡ s.jobs

-- Other requests that write no job meanwhile.
abbrev pub OthersKeepJobs : (ℕ → Store → Store) → Type 0
OthersKeepJobs other_calls = (n : ℕ) (s : Store) → (other_calls n s).jobs ≡ s.jobs

pub continue_jobs :
    {A B : Type 0} (r : Result A × Store) (f : A → M B) (s : Store)
    → r.1.jobs ≡ s.jobs
    → ((a : A) (t : Store) → (f a t).1.jobs ≡ t.jobs)
    → (continue r f).1.jobs ≡ s.jobs
continue_jobs (ok a, t) f s h k = k a t ∙ h
continue_jobs (err e, t) f s h k = h

pub if_some_jobs :
    {A B : Type 0} (o : Option A) (f : A → M B) (rest : M B)
    → ((a : A) → KeepsJobs (f a))
    → KeepsJobs rest
    → KeepsJobs (if_some o f rest)
if_some_jobs none f rest k r s = r s
if_some_jobs (some a) f rest k r s = k a s

pub found_store :
    {A : Type 0} (o : Option A) (message : String) (s : Store) → (found o message s).1 ≡ s
found_store none message s = refl
found_store (some a) message s = refl

pub then_pure :
    {A B : Type 0} (r : Result A × Store) (b : B) {a : A}
    → r.0 ≡ ok a
    → continue r (λ _. pure b) ≡ (ok b, r.1)
then_pure (ok a, t) b h = refl
then_pure (err e, t) b h = cc
