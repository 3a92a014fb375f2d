-- ===== src/Billing/Processing.antt =====
-- src/workers/billing-webhook.processor.ts: what one run of `handleEvent` leaves behind, and a
-- subscription that expires.
use text.Mathlib.Text.{◌==◌ as str_eq}
use notaryday_backend.Common.{
  ℕ, ◌≡◌, ◌⊎◌, refl, sym, ap, ◌∙◌, subst, String, Bool, true, false, ◌==◌, none, some, List, [],
  ◌∷◌, get_or, find_first, update_where, Bool-cases, Option-cases, inl, inr, arith,
  find_first_sound, find_first-update_where, ==_iff,
}
use notaryday_backend.Schema.{
  User, Payload, EventName, subscription_created, subscription_updated, subscription_cancelled,
  subscription_expired, subscription_payment_failed, unknown_event, WebhookEvent, Store, M, Result,
  ok, err, HttpError, not_found, unauthorized, conflict_error, server_error, bad_request, free, Env,
}
use notaryday_backend.Billing.{
  Config, handle_created, updated, cancelled, payment_failed, has_subscription, downgraded,
  for_subscriber, expired, update_user, process_webhook, settled, failed, update_event, settle,
  run_event, message_of, handle_event,
}
use notaryday_backend.Booking.Requests.{CreateBookingDto, create, create_for}

-- Searching after an update of the row that the search finds.
find_first-update_where_at :
    {A : Type 0} (p q : A → Bool) (f : A → A) (xs : List A) {x : A}
    → p x ≡ true
    → ((a : A) → q (f a) ≡ q a)
    → find_first q xs ≡ some x
    → find_first q (update_where p f xs) ≡ some (f x)
unfolding find_first update_where
find_first-update_where_at p q f [] here keep h = cc
find_first-update_where_at p q f (y ∷ ys) {x} here keep h = elim (Bool-cases (q y)) [
  | inl e ↦
      let same : some y ≡ some x = rw e at h in
      let now : p y ≡ true = subst (λ o. p (get_or o y) ≡ true) (sym same) here in
      rw (now, keep y ∙ e) (ap (λ o. some (f (get_or o y))) same)
  | inr e ↦
      let ih = find_first-update_where_at p q f ys here keep (rw e at h) in
      elim (Bool-cases (p y)) [ inl d ↦ rw (d, keep y ∙ e) ih | inr d ↦ rw (d, e) ih ]
]

abbrev KeepsEvents : {A : Type 0} → M A → Type 0
KeepsEvents m = (s : Store) → (m s).1.webhook_events ≡ s.webhook_events

for_subscriber-KeepsEvents :
    (p : Payload) (f : User → M (Unit {0}))
    → ((u : User) → KeepsEvents (f u))
    → KeepsEvents (for_subscriber p f)
unfolding for_subscriber
for_subscriber-KeepsEvents p f k s =
    elim (Option-cases (find_first (has_subscription p.id) s.users)) [
      | inl e ↦ ground (arith, e)
      | inr (u, e) ↦ ground (arith, e, k u s)
    ]

handle_created-KeepsEvents : (config : Config) (p : Payload) → KeepsEvents (handle_created config p)
unfolding handle_created update_user
handle_created-KeepsEvents config p s = ground arith

updated-KeepsEvents : (config : Config) (p : Payload) (u : User) → KeepsEvents (updated config p u)
unfolding updated update_user
updated-KeepsEvents config p u s = ground arith

payment_failed-KeepsEvents : (config : Config) (u : User) → KeepsEvents (payment_failed config u)
unfolding payment_failed
payment_failed-KeepsEvents config u s = ground arith

cancelled-KeepsEvents : (p : Payload) (u : User) → KeepsEvents (cancelled p u)
unfolding cancelled update_user
cancelled-KeepsEvents p u s = refl

expired-KeepsEvents : (u : User) → KeepsEvents (expired u)
unfolding expired update_user
expired-KeepsEvents u s = refl

process_webhook-KeepsEvents :
    (config : Config) (name : EventName) (p : Payload) → KeepsEvents (process_webhook config name p)
unfolding process_webhook
process_webhook-KeepsEvents config subscription_created p s = handle_created-KeepsEvents config p s
process_webhook-KeepsEvents config subscription_updated p s =
    for_subscriber-KeepsEvents p (updated config p) (updated-KeepsEvents config p) s
process_webhook-KeepsEvents config subscription_cancelled p s =
    for_subscriber-KeepsEvents p (cancelled p) (cancelled-KeepsEvents p) s
process_webhook-KeepsEvents config subscription_expired p s =
    for_subscriber-KeepsEvents p expired expired-KeepsEvents s
process_webhook-KeepsEvents config subscription_payment_failed p s =
    for_subscriber-KeepsEvents p (payment_failed config) (payment_failed-KeepsEvents config) s
process_webhook-KeepsEvents config unknown_event p s = refl

-- The message that an error carries.
pub data Carries (m : String) : HttpError → Type 0 where
  in_not_found : Carries m (not_found m)
  in_bad_request : Carries m (bad_request m)
  in_unauthorized : Carries m (unauthorized m)
  in_conflict : Carries m (conflict_error m)
  in_server_error : Carries m (server_error m)

message_of_lem : (e : HttpError) → Carries (message_of e) e
message_of_lem (not_found m) = in_not_found
message_of_lem (bad_request m) = in_bad_request
message_of_lem (unauthorized m) = in_unauthorized
message_of_lem (conflict_error m) = in_conflict
message_of_lem (server_error m) = in_server_error

-- The row of an event that was processed at the time `now`.
abbrev processed_row : ℕ → WebhookEvent → WebhookEvent
processed_row now event = record event { processed = true; processed_at = some now; error = none }

-- The row of an event that waits for another run, with the message of the one that failed.
abbrev waiting_row : String → WebhookEvent → WebhookEvent
waiting_row message event = record event {
  processed = false;
  processed_at = none;
  error = some message;
}

-- What one run of the worker makes of an event that was not processed: the run succeeds exactly if
-- the handler reports success, and the row says so.
pub data IsRun (config : Config) (now : ℕ) (event : WebhookEvent) (s : Store)
    (out : Result (Unit {0}) × Store) : Type 0 where
  done :
      (process_webhook config event.event_name event.payload s).0 ≡ ok true
      → out.0 ≡ ok tt
      → find_first (λ e. e.id == event.id) out.1.webhook_events ≡ some (processed_row now event)
      → IsRun config now event s out
  unprocessed :
      (process_webhook config event.event_name event.payload s).0 ≡ ok false
      → out.0 ≡ err (server_error "Webhook event was not processed")
      → find_first (λ e. e.id == event.id) out.1.webhook_events
        ≡ some (waiting_row "Webhook event was not processed" event)
      → IsRun config now event s out
  thrown :
      {e : HttpError} {message : String}
      → (process_webhook config event.event_name event.payload s).0 ≡ err e
      → out.0 ≡ err e
      → Carries message e
      → find_first (λ e. e.id == event.id) out.1.webhook_events ≡ some (waiting_row message event)
      → IsRun config now event s out

-- The row of an event after `update_event`.
updated_event :
    (id : ℕ) (f : WebhookEvent → WebhookEvent) (events : List WebhookEvent) {event : WebhookEvent}
    → ((e : WebhookEvent) → (f e).id ≡ e.id)
    → find_first (λ e. e.id == id) events ≡ some event
    → find_first (λ e. e.id == id) (update_where (λ e. e.id == id) f events) ≡ some (f event)
updated_event id f events keep found =
    find_first-update_where (λ e. e.id == id) f events
      (λ e h. subst (λ n. (n == id) ≡ true) (sym (keep e)) h) found

-- The end of `handleEvent`, by the handler's result.
settle-IsRun :
    (config : Config) (now : ℕ) (event : WebhookEvent) (s : Store) (r : Result Bool × Store)
    → process_webhook config event.event_name event.payload s ≡ r
    → find_first (λ e. e.id == event.id) r.1.webhook_events ≡ some event
    → IsRun config now event s (settle now event.id r)
unfolding update_event
settle-IsRun config now event s (ok true, t) h found =
    done (ap (λ r. r.0) h) refl
      (updated_event event.id (settled now) t.webhook_events (λ e. refl) found)
settle-IsRun config now event s (ok false, t) h found = unprocessed (ap (λ r. r.0) h) refl (
    updated_event event.id (failed "Webhook event was not processed") t.webhook_events (λ e. refl)
      found)
settle-IsRun config now event s (err e, t) h found =
    thrown (ap (λ r. r.0) h) refl (message_of_lem e)
      (updated_event event.id (failed (message_of e)) t.webhook_events (λ e. refl) found)

handle_event_step :
    (config : Config) (now id : ℕ) (s : Store) {event : WebhookEvent}
    → find_first (λ e. e.id == id) s.webhook_events ≡ some event
    → handle_event config now id s ≡ run_event config now event s
unfolding handle_event
handle_event_step config now id s found = rw (found) refl

found_id :
    (id : ℕ) (events : List WebhookEvent) {event : WebhookEvent}
    → find_first (λ e. e.id == id) events ≡ some event
    → event.id ≡ id
found_id id events {event} found =
    (==_iff event.id id).0 (find_first_sound (λ e. e.id == id) events found)

-- For an event that is stored and not processed, a run of `handleEvent` succeeds exactly if the
-- handler reports that it has processed the event, and then the row is marked as processed at that
-- time, without an error; where the handler reports otherwise or throws, the run throws, the row
-- holds the message of the error, is not processed and has no time of processing. A run for an event that is processed changes nothing.
pub handle_event_lem :
    (config : Config) (now id : ℕ) (s : Store) {event : WebhookEvent}
    → find_first (λ e. e.id == id) s.webhook_events ≡ some event
    → ((event.processed ≡ true) × (handle_event config now id s ≡ (ok tt, s)))
      ⊎ ((event.processed ≡ false) × IsRun config now event s (handle_event config now id s))
handle_event_lem config now id s {event} found =
    let step = handle_event_step config now id s found in
    let r = process_webhook config event.event_name event.payload s in
    let kept = process_webhook-KeepsEvents config event.event_name event.payload s in
    let here : find_first (λ e. e.id == event.id) s.webhook_events ≡ some event =
      subst (λ n. find_first (λ e. e.id == n) s.webhook_events ≡ some event)
        (sym (found_id id s.webhook_events found)) found in
    elim (Bool-cases event.processed) [
      | inl e ↦ inl (e, rw (e) at step)
      | inr e ↦ inr (
        e,
        subst (λ o. IsRun config now event s o) (sym (rw (e) at step))
            (settle-IsRun config now event s r refl
              (subst (λ es. find_first (λ e. e.id == event.id) es ≡ some event) (sym kept) here)),
      )
    ]

free_user_refused :
    (env : Env) (aborted : Bool) (username : String) (dto : CreateBookingDto) (s : Store)
    {user : User}
    → find_first (λ u. str_eq u.username username) s.users ≡ some user
    → user.plan ≡ free
    → create env aborted username dto s
      ≡ (err (bad_request "Free plan users cannot receive bookings"), s)
unfolding create create_for
free_user_refused env aborted username dto s found plan = ground (arith, found, plan)

expired_users :
    (config : Config) (p : Payload) (s : Store) {user : User}
    → find_first (has_subscription p.id) s.users ≡ some user
    → ((process_webhook config subscription_expired p s).0 ≡ ok true)
      × ((process_webhook config subscription_expired p s).1.users
          ≡ update_where (λ u. u.id == user.id) downgraded s.users)
unfolding process_webhook for_subscriber expired update_user
expired_users config p s found = rw found (refl, refl)

settle_users :
    (now id : ℕ) (r : Result Bool × Store)
    → r.0 ≡ ok true
    → ((settle now id r).0 ≡ ok tt) × ((settle now id r).1.users ≡ r.1.users)
unfolding update_event
settle_users now id (ok true, s) h = (refl, refl)
settle_users now id (ok false, s) h = absurd (ground (arith, h))
settle_users now id (err e, s) h = absurd (ground (arith, h))

-- Where an unprocessed event says that the subscription of a user has expired, the run of its job
-- succeeds, and with the database that it leaves `BookingService.create` refuses, at any time, every request for a booking with this
-- user, if the user is also the one found by the username, and leaves the bookings as they are.
pub expiry_closes_bookings :
    (config : Config) (now id : ℕ) (env : Env) (aborted : Bool) (dto : CreateBookingDto) (s : Store)
    {event : WebhookEvent} {user : User}
    → find_first (λ e. e.id == id) s.webhook_events ≡ some event
    → event.processed ≡ false
    → event.event_name ≡ subscription_expired
    → find_first (has_subscription event.payload.id) s.users ≡ some user
    → find_first (λ u. str_eq u.username user.username) s.users ≡ some user
    → ((handle_event config now id s).0 ≡ ok tt)
      × (create env aborted user.username dto (handle_event config now id s).1 ≡ (
        err (bad_request "Free plan users cannot receive bookings"),
        (handle_event config now id s).1,
      ))
expiry_closes_bookings config now id env aborted dto s {event} {user} found fresh named sub
      by_name =
    let (reported, users) = expired_users config event.payload s sub in
    let run = process_webhook config subscription_expired event.payload s in
    let (fine, kept) = settle_users now event.id run reported in
    let step : handle_event config now id s ≡ settle now event.id run =
      rw (fresh, named) at (handle_event_step config now id s found) in
    let same =
      find_first-update_where_at (λ u. u.id == user.id) (λ u. str_eq u.username user.username)
        downgraded s.users ((==_iff user.id user.id).1 refl) (λ u. refl) by_name in
    rw step (
      fine,
      free_user_refused env aborted user.username dto _ {user = downgraded user}
          (rw (kept ∙ users) same) refl,
    )
