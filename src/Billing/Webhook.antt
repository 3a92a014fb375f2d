-- ===== src/Billing/Webhook.antt =====
-- src/modules/billing/billing.webhook.controller.ts, with `verifyWebhookSignature` and
-- `persistWebhookEvent` of billing.service.ts.
--
-- `hmac` is the hex digest of HMAC-SHA256 under the secret, `parse` is `JSON.parse`; texts that go
-- through them are lists of bytes. `queue_up` tells whether Redis takes the job.
use notaryday_backend.Common.{
  ℕ, Bool, true, false, ◌&&◌, ◌==◌, not, Option, none, some, List, [], ◌∷◌, or_else, length, any,
  if◌then◌else◌,
}
use notaryday_backend.Schema.{
  Payload, EventName, WebhookEvent, M, ◌>>=◌, ◌>>◌, pure, throw, when, emit, ok, bad_request,
  unauthorized, server_error, billing_event,
}

-- The body of a delivery: the name and the id stand in `meta` or at the top.
pub record Delivery : Type 0 where
  pub meta_event_name : Option EventName
  pub meta_id : Option ℕ
  pub top_event_name : Option EventName
  pub top_id : Option ℕ
  pub payload : Payload

unfoldable pub same_bytes : List ℕ → List ℕ → Bool
same_bytes [] [] = true
same_bytes [] (_ ∷ _) = false
same_bytes (_ ∷ _) [] = false
same_bytes (a ∷ xs) (b ∷ ys) = a == b && same_bytes xs ys

-- `verifyWebhookSignature`; `timingSafeEqual` throws where the lengths differ.
unfoldable pub verify_webhook_signature :
    (List ℕ → List ℕ → List ℕ) → Option (List ℕ) → List ℕ → List ℕ → M Bool
unfolding same_bytes
verify_webhook_signature hmac none payload signature = pure false
verify_webhook_signature hmac (some secret) payload signature =
    if length (hmac secret payload) == length signature
    then pure (same_bytes (hmac secret payload) signature)
    else throw (server_error "Input buffers must have the same byte length")

pub data Answer : Type 0 where
  received queued : Answer

abbrev pub new_event : ℕ → EventName → Payload → WebhookEvent
new_event id name payload = record {
  id = id;
  event_name = name;
  payload = payload;
  processed = false;
  processed_at = none;
  error = none;
}

-- `persistWebhookEvent`: the insert fails on an id that is there.
unfoldable pub persist_webhook_event : ℕ → EventName → Payload → M Bool
unfolding any
persist_webhook_event id name payload s =
    if any (λ e. e.id == id) s.webhook_events
    then (ok false, s)
    else (ok true, record s { webhook_events = new_event id name payload ∷ s.webhook_events })

-- `billingQueue.add`
abbrev pub enqueue : Bool → ℕ → M (Unit {0})
enqueue true id = emit (billing_event id)
enqueue false id = throw (server_error "Connection is closed")

-- The controller, once the body is read.
unfoldable pub receive : Bool → Delivery → M Answer
unfolding persist_webhook_event
receive queue_up d = elim (or_else d.meta_event_name d.top_event_name) [
  | none ↦ pure received
  | some name ↦ elim (or_else d.meta_id d.top_id) [
    | none ↦ pure received
    | some id ↦ do
      created ← persist_webhook_event id name d.payload
      if created then enqueue queue_up id >> pure queued else pure received
  ]
]

abbrev no_bytes : List ℕ → Bool
no_bytes [] = true
no_bytes (_ ∷ _) = false

abbrev parsed : Option Delivery → M Delivery
parsed none = throw (bad_request "Invalid JSON payload")
parsed (some d) = pure d

-- A missing signature is an empty list.
unfoldable pub handle_webhook :
    (List ℕ → List ℕ → List ℕ)
    → (List ℕ → Option Delivery)
    → Option (List ℕ)
    → Bool
    → List ℕ
    → List ℕ
    → M Answer
unfolding verify_webhook_signature receive
handle_webhook hmac parse secret queue_up signature body = do
  when (no_bytes signature) (throw (unauthorized "Invalid signature"))
  valid ← verify_webhook_signature hmac secret body signature
  when (not valid) (throw (unauthorized "Invalid signature"))
  d ← parsed (parse body)
  receive queue_up d
