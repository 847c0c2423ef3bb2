-- ===== src/Billing/Webhook.antt =====
-- backend/internal/billing/webhook.go: the handler of the provider's notifications.
use fluenthub.Prelude.{
  ℕ, ◌*◌, String, ◌≡◌, ◌≢◌, refl, Bool, true, ◌&&◌, not, Option, none, some, ◌==◌, eq_iff,
  if◌then◌else◌, arith, leb, Bool-cases, inl, inr,
}
use fluenthub.Prelude.Text.{len, starts_with}
use fluenthub.Prelude.Action.{ok, Action, Faults, is_ok, Result-cases}
use fluenthub.Billing.Provider.{Time, BillingProvider}
use fluenthub.Billing.Store.{Db}
use fluenthub.Billing.Service.{AsaasWebhookEvent, process_asaas_webhook}
use fluenthub.Billing.Service.Webhook.{process_asaas_webhook_atomic}

unfoldable pub valid_asaas_event : AsaasWebhookEvent → Bool
valid_asaas_event event =
    leb 5 (len event.id)
    && leb (len event.id) 200
    && starts_with event.event "PAYMENT_"
    && leb (len event.event) 80
    && leb 5 (len event.payment_id)
    && leb (len event.payment_id) 200

-- The responses of the handler.
pub data Response : Type 0 where
  unauthorized bad_request service_unavailable received : Response

abbrev pub status_code : Response → ℕ
status_code unauthorized = 401
status_code bad_request = 400
status_code service_unavailable = 503
status_code received = 200

-- What follows the decoding of a body, which may fail; `process` is the processor.
unfoldable pub handle_event :
    {S : Type 0}
    → (AsaasWebhookEvent → Action S (Unit {0}))
    → Option AsaasWebhookEvent
    → S
    → Response × S
handle_event process none s = (bad_request, s)
handle_event process (some event) s =
    let (r, s') = process event s in
    (
      if not (valid_asaas_event event)
          then bad_request
          else if is_ok r
          then received
          else service_unavailable,
      if not (valid_asaas_event event) then s else s',
    )

module _ (provider : BillingProvider) (faults : Faults) (now : Time) (db : Db) where
  handle_event_atomic :
      (o : Option AsaasWebhookEvent)
      → (handle_event (process_asaas_webhook provider faults now) o db).0 ≢ received
      → (handle_event (process_asaas_webhook provider faults now) o db).1 ≡ db
  unfolding handle_event
  handle_event_atomic none h = refl
  handle_event_atomic (some event) h =
      elim (Result-cases (process_asaas_webhook provider faults now event db).0) [
        | inl (a, e) ↦ ground arith
        | inr (f, e) ↦ ground (arith, process_asaas_webhook_atomic provider faults now event db f e)
      ]

  abbrev pub Handled : Option AsaasWebhookEvent → Db → Type 0
  Handled o db' =
      (event : AsaasWebhookEvent) × (o ≡ some event)
      × (valid_asaas_event event ≡ true)
      × (process_asaas_webhook provider faults now event db ≡ (ok tt, db'))

  handle_event-received :
      (o : Option AsaasWebhookEvent)
      → (handle_event (process_asaas_webhook provider faults now) o db).0 ≡ received
      → Handled o (handle_event (process_asaas_webhook provider faults now) o db).1
  unfolding handle_event
  handle_event-received none h = cc
  handle_event-received (some event) h = elim (Bool-cases (valid_asaas_event event)) [
    | inl valid ↦ (event, refl, valid, ground arith)
    | inr invalid ↦ ground arith
  ]

-- The handler over what Go's libraries give it: the digest of a token, and the first JSON value of a body
-- that is read up to a number of bytes.
module _ (sha256 : String → String) (decode : ℕ → String → Option AsaasWebhookEvent) where
  unfoldable pub asaas_webhook_handler :
      {S : Type 0}
      → String
      → (AsaasWebhookEvent → Action S (Unit {0}))
      → String
      → String
      → S
      → Response × S
  unfolding handle_event
  asaas_webhook_handler auth_token process provided body s =
      let (response, s') = handle_event process (decode (256 * 1024) body) s in
      let differs = not (sha256 provided == sha256 auth_token) in
      (if differs then unauthorized else response, if differs then s else s')

  module _ (auth_token provided body : String) (provider : BillingProvider) (faults : Faults)
      (now : Time) (db : Db) where
    abbrev answer : Response × Db
    answer =
        asaas_webhook_handler auth_token (process_asaas_webhook provider faults now) provided body
          db

    -- A notification that is not answered with 200 has left the database as it was.
    pub asaas_webhook_handler_atomic : answer.0 ≢ received → answer.1 ≡ db
    unfolding asaas_webhook_handler
    asaas_webhook_handler_atomic h =
        ground (arith, handle_event_atomic provider faults now db (decode (256 * 1024) body))

    -- One that is answered with 200 carried a token with the digest of the configured one, and a body with a
    -- valid event, and the event has been processed with success.
    pub asaas_webhook_handler-received :
        answer.0 ≡ received
        → (sha256 provided ≡ sha256 auth_token)
          × Handled provider faults now db (decode (256 * 1024) body) answer.1
    unfolding asaas_webhook_handler
    asaas_webhook_handler-received h = elim (Bool-cases (sha256 provided == sha256 auth_token)) [
      | inl same ↦ (
        (eq_iff (sha256 provided) (sha256 auth_token)).0 same,
        rw same (
            handle_event-received provider faults now db (decode (256 * 1024) body) (rw same at h)),
      )
      | inr differs ↦ ground arith
    ]
