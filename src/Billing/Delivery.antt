-- ===== src/Billing/Delivery.antt =====
-- src/modules/billing/billing.webhook.controller.ts: what becomes of a delivery.
use notaryday_backend.Common.{
  ℕ, zero, suc, ◌≡◌, refl, Bool, true, false, ◌==◌, Option, none, some, List, [], ◌∷◌, ◌++◌, ◌≢◌,
  or_else, length, any, Bool-cases, Option-cases, inl, inr, arith, find_first,
}
use notaryday_backend.Schema.{
  EventName, Store, M, Result, ok, err, bad_request, unauthorized, server_error, billing_event,
}
use notaryday_backend.Billing.Webhook.{
  Delivery, Answer, received, queued, same_bytes, verify_webhook_signature, new_event,
  persist_webhook_event, receive, handle_webhook,
}

same_bytes_refl : (xs : List ℕ) → same_bytes xs xs ≡ true
unfolding same_bytes
same_bytes_refl [] = refl
same_bytes_refl (x ∷ xs) = ground (arith, same_bytes_refl xs)

same_bytes_sound : (xs ys : List ℕ) → same_bytes xs ys ≡ true → xs ≡ ys
unfolding same_bytes
same_bytes_sound [] [] h = refl
same_bytes_sound (x ∷ xs) (y ∷ ys) h = ground (arith, same_bytes_sound xs ys, h)
same_bytes_sound [] (y ∷ ys) h = absurd (ground (arith, h))
same_bytes_sound (x ∷ xs) [] h = absurd (ground (arith, h))

-- The deliveries of one event, after each of which the store is what the last has left.
abbrev pub redeliver : ℕ → (Store → Result Answer × Store) → Store → Store
redeliver zero call s = s
redeliver (suc n) call s = redeliver n call (call s).1

module _ (d : Delivery) {name : EventName} {id : ℕ}
    (named : or_else d.meta_event_name d.top_event_name ≡ some name)
    (numbered : or_else d.meta_id d.top_id ≡ some id) where
  receive_new :
      (s : Store)
      → any (λ e. e.id == id) s.webhook_events ≡ false
      → receive true d s ≡ (
        ok queued,
        record s {
          webhook_events = new_event id name d.payload ∷ s.webhook_events;
          outbox = s.outbox ++ billing_event id ∷ [];
        },
      )
  unfolding receive persist_webhook_event
  receive_new s new = ground (arith, named, numbered, new)

  receive_lost :
      (s : Store)
      → any (λ e. e.id == id) s.webhook_events ≡ false
      → receive false d s ≡ (
        err (server_error "Connection is closed"),
        record s { webhook_events = new_event id name d.payload ∷ s.webhook_events },
      )
  unfolding receive persist_webhook_event
  receive_lost s new = ground (arith, named, numbered, new)

  receive_again :
      (queue_up : Bool) (s : Store)
      → any (λ e. e.id == id) s.webhook_events ≡ true
      → receive queue_up d s ≡ (ok received, s)
  unfolding receive persist_webhook_event
  receive_again queue_up s known = ground (arith, named, numbered, known)

  redeliver_known :
      (queue_up : Bool) (n : ℕ) (s : Store)
      → any (λ e. e.id == id) s.webhook_events ≡ true
      → redeliver n (receive queue_up d) s ≡ s
  redeliver_known queue_up zero s known = refl
  redeliver_known queue_up (suc n) s known =
      rw (receive_again queue_up s known) (redeliver_known queue_up n s known)

  known_after :
      (queue_up : Bool) (s : Store)
      → any (λ e. e.id == id) (receive queue_up d s).1.webhook_events ≡ true
  unfolding receive persist_webhook_event any
  known_after true s = ground (arith, named, numbered)
  known_after false s = ground (arith, named, numbered)

  -- A delivery that names an event is answered, and every later delivery of it, whether the queue takes
  -- jobs or not, is answered as received and leaves the database and the messages as they are.
  pub redelivered_once :
      (queue_up later_up : Bool) (n : ℕ) (s : Store)
      → (redeliver n (receive later_up d) (receive queue_up d s).1 ≡ (receive queue_up d s).1)
        × (receive later_up d (receive queue_up d s).1 ≡ (ok received, (receive queue_up d s).1))
  redelivered_once queue_up later_up n s = (
    redeliver_known later_up n _ (known_after queue_up s),
    receive_again later_up _ (known_after queue_up s),
  )

  -- An event whose first delivery found the queue closed is stored and answered with an error, and
  -- however often it is delivered again with the queue open, no job is queued for it.
  pub failed_enqueue_loses :
      (n : ℕ) (s : Store)
      → any (λ e. e.id == id) s.webhook_events ≡ false
      → ((receive false d s).0 ≡ err (server_error "Connection is closed"))
        × (find_first
              (λ e. e.id == id)
              (redeliver n (receive true d) (receive false d s).1).webhook_events
            ≡ some (new_event id name d.payload))
        × ((redeliver n (receive true d) (receive false d s).1).outbox ≡ s.outbox)
  unfolding find_first
  failed_enqueue_loses n s new =
      let same = redeliver_known true n (receive false d s).1 (known_after false s) in
      let lost = receive_lost s new in rw (same, lost) (refl, ground arith, refl)

-- What `handleWebhook` returns once the signature is accepted.
abbrev pub answer_of : Option Delivery → Bool → M Answer
answer_of none queue_up s = (err (bad_request "Invalid JSON payload"), s)
answer_of (some d) queue_up s = receive queue_up d s

-- With a secret and a signature, a delivery gets through to the parser exactly if the signature is the
-- digest of the body. A wrong one of the right length is refused with 401, and one of another length
-- with a server error, for `timingSafeEqual` throws; both leave the database as it is.
pub data IsJudged (digest signature : List ℕ) (accepted refused crashed out : Result Answer × Store)
    : Type 0 where
  right :
      digest ≡ signature → out ≡ accepted → IsJudged digest signature accepted refused crashed out
  wrong :
      digest ≢ signature
      → length digest ≡ length signature
      → out ≡ refused
      → IsJudged digest signature accepted refused crashed out
  misfit :
      length digest ≢ length signature
      → out ≡ crashed
      → IsJudged digest signature accepted refused crashed out

pub handle_webhook_judges :
    (hmac : List ℕ → List ℕ → List ℕ) (parse : List ℕ → Option Delivery) (secret : List ℕ)
    (queue_up : Bool) (c : ℕ) (cs body : List ℕ) (s : Store)
    → IsJudged
        (hmac secret body)
        (c ∷ cs)
        (answer_of (parse body) queue_up s)
        (err (unauthorized "Invalid signature"), s)
        (err (server_error "Input buffers must have the same byte length"), s)
        (handle_webhook hmac parse (some secret) queue_up (c ∷ cs) body s)
unfolding handle_webhook verify_webhook_signature
handle_webhook_judges hmac parse secret queue_up c cs body s =
    elim (Bool-cases (length (hmac secret body) == length (c ∷ cs))) [
      | inr e ↦ misfit (λ l. ground (arith, e, l)) (ground (arith, e))
      | inl e ↦ elim (Bool-cases (same_bytes (hmac secret body) (c ∷ cs))) [
        | inl m ↦ right (same_bytes_sound _ _ m) (elim (Option-cases (parse body)) [
          | inl q ↦ ground (arith, e, m, q)
          | inr (d, q) ↦ ground (arith, e, m, q)
        ])
        | inr m ↦
            wrong (λ l. ground (arith, m, same_bytes_refl (c ∷ cs), l)) (ground (arith, e))
              (ground (arith, e, m))
      ]
    ]
