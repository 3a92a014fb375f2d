-- ===== src/Examples/Billing.antt =====
-- Runs of the billing webhook (src/modules/billing/billing.webhook.controller.ts and
-- src/workers/billing-webhook.processor.ts).
use notaryday_backend.Common.{
  ℕ, ◌≡◌, ◌⊎◌, refl, true, false, some, none, List, [], ◌∷◌, ◌++◌, ◌==◌, find_first, any,
}
use notaryday_backend.Schema.{
  User, Payload, active, subscription_expired, Store, ok, err, bad_request, unauthorized,
  server_error, WebhookEvent,
}
use notaryday_backend.Billing.{Config, handle_event}
use notaryday_backend.Billing.Webhook.{Delivery, new_event, receive, handle_webhook}
use notaryday_backend.Billing.Delivery.{
  redeliver, failed_enqueue_loses, answer_of, IsJudged, handle_webhook_judges,
}
use notaryday_backend.Billing.Processing.{IsRun, handle_event_lem, expiry_closes_bookings}
use notaryday_backend.Booking.Requests.{create}
use notaryday_backend.Examples.{env, notary, rows, booking_request}

abbrev config : Config
config = record { monthly = some 3; mail_up = true }

abbrev expiry : Payload
expiry = record {
  id = 70;
  variant_id = 3;
  status = active;
  customer_id = 71;
  renews_at = none;
  ends_at = none;
  user_id = none;
}

abbrev delivery : Delivery
delivery = record {
  meta_event_name = some subscription_expired;
  meta_id = none;
  top_event_name = none;
  top_id = some 77;
  payload = expiry;
}

failed_enqueue_loses_example :
    ((receive false delivery rows).0 ≡ err (server_error "Connection is closed"))
    × (find_first
          (λ e. e.id == 77)
          (redeliver 3 (receive true delivery) (receive false delivery rows).1).webhook_events
        ≡ some (new_event 77 subscription_expired expiry))
    × ((redeliver 3 (receive true delivery) (receive false delivery rows).1).outbox ≡ rows.outbox)
unfolding any
failed_enqueue_loses_example = failed_enqueue_loses delivery refl refl 3 rows refl

-- A digest that is the secret and the body.
abbrev toy_digest : List ℕ → List ℕ → List ℕ
toy_digest secret body = secret ++ body

handle_webhook_judges_example :
    IsJudged
      (toy_digest (1 ∷ []) (2 ∷ []))
      (1 ∷ 3 ∷ [])
      (answer_of (some delivery) true rows)
      (err (unauthorized "Invalid signature"), rows)
      (err (server_error "Input buffers must have the same byte length"), rows)
      (handle_webhook toy_digest
        (λ _. some delivery)
        (some (1 ∷ []))
        true
        (1 ∷ 3 ∷ [])
        (2 ∷ [])
        rows)
handle_webhook_judges_example =
    handle_webhook_judges toy_digest (λ _. some delivery) (1 ∷ []) true 1 (3 ∷ []) (2 ∷ []) rows

abbrev subscriber : User
subscriber = record notary { lemon_squeezy_subscription_id = some 70 }

abbrev event : WebhookEvent
event = new_event 77 subscription_expired expiry

abbrev subscribed : Store
subscribed = record rows { users = subscriber ∷ []; webhook_events = event ∷ [] }

handle_event_lem_example :
    ((event.processed ≡ true) × (handle_event config 5 77 subscribed ≡ (ok tt, subscribed)))
    ⊎ ((event.processed ≡ false)
        × IsRun config 5 event subscribed (handle_event config 5 77 subscribed))
unfolding find_first
handle_event_lem_example = handle_event_lem config 5 77 subscribed {event = event} refl

expiry_closes_bookings_example :
    ((handle_event config 5 77 subscribed).0 ≡ ok tt)
    × (create env false "ann" booking_request (handle_event config 5 77 subscribed).1 ≡ (
      err (bad_request "Free plan users cannot receive bookings"),
      (handle_event config 5 77 subscribed).1,
    ))
unfolding find_first
expiry_closes_bookings_example =
    expiry_closes_bookings config 5 77 env false booking_request subscribed {event = event}
      {user = subscriber} refl refl refl refl refl
