-- ===== src/Billing/Status.antt =====
-- backend/internal/billing/webhook.go and asaas.go: how a status or an event of Asaas moves the
-- status of an invoice.
pub mod Order
pub mod Sequence
use fluenthub.Prelude.{
  ℕ, String, ◌≡◌, refl, ◌⊎◌, inl, inr, Bool, true, false, ◌&&◌, ◌||◌, not, ◌==◌, if◌then◌else◌,
  arith,
}

unfoldable pub map_asaas_status : String → String
map_asaas_status status =
    if status == "RECEIVED" || status == "CONFIRMED" || status == "RECEIVED_IN_CASH"
    then "paid"
    else if status == "OVERDUE"
    then "overdue"
    else if status == "REFUNDED"
        || status == "REFUND_REQUESTED"
        || status == "CHARGEBACK_REQUESTED"
        || status == "CHARGEBACK_DISPUTE"
        || status == "AWAITING_CHARGEBACK_REVERSAL"
    then "cancelled"
    else "issued"

-- `desired` after the first test of paymentStatus
unfoldable pub provider_desired : String → String
unfolding map_asaas_status
provider_desired provider_status =
    if not (provider_status == "issued")
      && not (provider_status == "overdue")
      && not (provider_status == "paid")
      && not (provider_status == "cancelled")
    then map_asaas_status provider_status
    else provider_status

-- `desired` after the switch of paymentStatus
unfoldable pub desired_status : String → String → String
unfolding provider_desired
desired_status event_type provider_status =
    if event_type == "PAYMENT_RECEIVED"
      || event_type == "PAYMENT_CONFIRMED"
      || event_type == "PAYMENT_RECEIVED_IN_CASH"
    then "paid"
    else if event_type == "PAYMENT_OVERDUE"
    then "overdue"
    else if event_type == "PAYMENT_DELETED"
        || event_type == "PAYMENT_REFUNDED"
        || event_type == "PAYMENT_REFUND_IN_PROGRESS"
        || event_type == "PAYMENT_CHARGEBACK_REQUESTED"
        || event_type == "PAYMENT_CHARGEBACK_DISPUTE"
    then "cancelled"
    else provider_desired provider_status

-- the guards of paymentStatus, on the status that is desired
unfoldable pub guard_transition : String → String → String × Bool
guard_transition current desired =
    if current == "cancelled" || current == desired
    then (current, false)
    else if current == "paid" && not (desired == "cancelled")
    then (current, false)
    else if desired == "issued" && not (current == "draft")
    then (current, false)
    else if desired == "overdue" && not (current == "issued") && not (current == "draft")
    then (current, false)
    else if not (desired == "issued")
        && not (desired == "overdue")
        && not (desired == "paid")
        && not (desired == "cancelled")
    then (current, false)
    else (desired, true)

unfoldable pub payment_status : String → String → String → String × Bool
unfolding guard_transition
payment_status current event_type provider_status =
    guard_transition current (desired_status event_type provider_status)
