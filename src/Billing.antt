-- ===== src/Billing.antt =====
-- src/modules/billing/billing.service.ts (the webhook handlers) and
-- src/workers/billing-webhook.processor.ts.
--
-- Events are never deleted, so the updates of an event that was just found do not fail. The name of
-- the event is left out of the message for one that was not processed.
pub mod Webhook
pub mod Delivery
pub mod Processing
use notaryday_backend.Common.{
  ℕ, String, Bool, true, false, ◌&&◌, ◌||◌, ◌==◌, not, Option, none, some, [], ◌∷◌, is_empty, any,
  find_first, update_where, if◌then◌else◌,
}
use notaryday_backend.Schema.{
  User, Payload, SubscriptionStatus, active, trialing, other_status, EventName,
  subscription_created, subscription_updated, subscription_cancelled, subscription_expired,
  subscription_payment_failed, unknown_event, WebhookEvent, Store, M, Result, HttpError, found,
  if_some, ◌>>=◌, ◌>>◌, pure, throw, when, get_store, emit, ok, err, not_found, bad_request,
  unauthorized, conflict_error, server_error, PlanTier, free, pro, pro_annual, subscription_changed,
  conversion, push, email,
}
use notaryday_backend.Tables.{find_user}

-- The configured variant of the monthly plan, and whether one of the two mailers takes a message.
pub record Config : Type 0 where
  pub monthly : Option ℕ
  pub mail_up : Bool

abbrev pub plan_of : Option ℕ → ℕ → PlanTier
plan_of none variant = pro_annual
plan_of (some monthly) variant = if variant == monthly then pro else pro_annual

abbrev is_value : Option ℕ → ℕ → Bool
is_value none n = false
is_value (some m) n = m == n

-- `findFirst({ where: { lemon_squeezy_subscription_id } })`
abbrev pub has_subscription : ℕ → User → Bool
has_subscription id u = is_value u.lemon_squeezy_subscription_id id

-- `prisma.user.update` of a row that is there.
unfoldable pub update_user : ℕ → (User → User) → M (Unit {0})
update_user id f s = (ok tt, record s { users = update_where (λ u. u.id == id) f s.users })

-- Both Lemon Squeezy identifiers are unique columns.
abbrev pub has_ids_of : ℕ → Payload → User → Bool
has_ids_of user_id p u =
    not (u.id == user_id)
    && (is_value u.lemon_squeezy_customer_id p.customer_id || has_subscription p.id u)

-- `emitProConversion`: both plans count.
abbrev pub emit_pro_conversion : User → M (Unit {0})
emit_pro_conversion u = when (not (is_empty u.email)) (emit (conversion u.id))

unfoldable pub handle_created : Config → Payload → M Bool
unfolding update_user find_first any
handle_created config p = elim p.user_id [
  | none ↦ pure false
  | some user_id ↦ do
    s ← get_store
    user ← found (find_user user_id s) "P2025"
    when (any (has_ids_of user_id p) s.users) (throw (server_error "P2002"))
    update_user user_id (λ u. record u {
      plan = plan_of config.monthly p.variant_id;
      lemon_squeezy_customer_id = some p.customer_id;
      lemon_squeezy_subscription_id = some p.id;
    })
    emit (subscription_changed "created" user_id (plan_of config.monthly p.variant_id))
    emit_pro_conversion user
    pure true
]

abbrev is_live : SubscriptionStatus → Bool
is_live active = true
is_live trialing = true
is_live other_status = false

-- The user of the subscription, or `processed: false`.
unfoldable pub for_subscriber : Payload → (User → M (Unit {0})) → M Bool
unfolding find_first
for_subscriber p f = do
  s ← get_store
  if_some (find_first (has_subscription p.id) s.users) (λ u. f u >> pure true) (pure false)

unfoldable pub updated : Config → Payload → User → M (Unit {0})
unfolding update_user
updated config p user = when (is_live p.status) (do
  update_user user.id
      (λ u. record u { plan = plan_of config.monthly p.variant_id; plan_expires_at = p.renews_at })
  emit (subscription_changed "updated" user.id (plan_of config.monthly p.variant_id))
  emit_pro_conversion user)

unfoldable pub cancelled : Payload → User → M (Unit {0})
unfolding update_user
cancelled p user = do
  update_user user.id (λ u. record u { plan_expires_at = p.ends_at })
  emit (subscription_changed "cancelled" user.id user.plan)

abbrev pub downgraded : User → User
downgraded u = record u {
  plan = free;
  lemon_squeezy_subscription_id = none;
  plan_expires_at = none;
}

unfoldable pub expired : User → M (Unit {0})
unfolding update_user
expired user = do update_user user.id downgraded; emit (subscription_changed "expired" user.id free)

unfoldable pub payment_failed : Config → User → M (Unit {0})
payment_failed config user = do
  emit (push user.id)
  when (not config.mail_up)
      (throw (server_error "Transactional email send failed on all providers."))
  emit (email user.email)

-- `processWebhook`
unfoldable pub process_webhook : Config → EventName → Payload → M Bool
unfolding handle_created for_subscriber
process_webhook config subscription_created p = handle_created config p
process_webhook config subscription_updated p = for_subscriber p (updated config p)
process_webhook config subscription_cancelled p = for_subscriber p (cancelled p)
process_webhook config subscription_expired p = for_subscriber p expired
process_webhook config subscription_payment_failed p = for_subscriber p (payment_failed config)
process_webhook config unknown_event p = pure false

-- `updateEvent(id, true)`
abbrev pub settled : ℕ → WebhookEvent → WebhookEvent
settled now e = record e { processed = true; processed_at = some now; error = none }

-- `recordEventError`
abbrev pub failed : String → WebhookEvent → WebhookEvent
failed message e = record e { processed = false; processed_at = none; error = some message }

unfoldable pub update_event : ℕ → (WebhookEvent → WebhookEvent) → M (Unit {0})
unfolding update_where
update_event id f s =
    (ok tt, record s { webhook_events = update_where (λ e. e.id == id) f s.webhook_events })

abbrev pub message_of : HttpError → String
message_of (not_found m) = m
message_of (bad_request m) = m
message_of (unauthorized m) = m
message_of (conflict_error m) = m
message_of (server_error m) = m

-- The end of `handleEvent`: what the handler wrote stays, whatever it returned.
abbrev pub settle : ℕ → ℕ → Result Bool × Store → Result (Unit {0}) × Store
settle now id (ok true, s) = update_event id (settled now) s
settle now id (ok false, s) =
    (update_event id (failed "Webhook event was not processed")
        >> throw (server_error "Webhook event was not processed"))
      s
settle now id (err e, s) = (update_event id (failed (message_of e)) >> throw e) s

abbrev pub run_event : Config → ℕ → WebhookEvent → M (Unit {0})
run_event config now event s =
    if event.processed
    then (ok tt, s)
    else settle now event.id (process_webhook config event.event_name event.payload s)

-- `BillingWebhookProcessor.handleEvent`
unfoldable pub handle_event : Config → ℕ → ℕ → M (Unit {0})
unfolding find_first process_webhook update_event
handle_event config now event_id = do
  s ← get_store
  if_some (find_first (λ e. e.id == event_id) s.webhook_events) (run_event config now) (pure tt)
