-- ===== src/Billing/Store.antt =====
-- The tables of the database that backend/internal/billing/service.go reads and writes, and its
-- statements, one definition each.
use fluenthub.Prelude.{
  ℕ, String, Bool, false, ◌&&◌, Option, none, some, List, ◌==◌, if◌then◌else◌, find_where,
  exists_where, insert,
}
use fluenthub.Prelude.Int.{ℤ}
use fluenthub.Billing.Provider.{Time}

-- users
pub record UserRow : Type 0 where
  pub id : String
  pub school_id : String
  pub name : String
  pub email : String
  pub active : Bool

-- billing_accounts
pub record AccountRow : Type 0 where
  pub school_id : String
  pub student_id : String
  pub customer_reference : Option String
  pub active : Bool

-- invoices
pub record InvoiceRow : Type 0 where
  pub id : String
  pub school_id : String
  pub student_id : String
  pub enrollment_id : Option String
  pub description : String
  pub amount_cents : ℤ
  pub due_date : Time
  pub status : String
  pub provider : String
  pub provider_reference : Option String
  pub boleto_url : Option String
  pub boleto_barcode : Option String
  pub issued_at : Option Time
  pub paid_at : Option Time
  pub cancelled_at : Option Time
  pub synced_at : Option Time

-- payments
pub record PaymentRow : Type 0 where
  pub invoice_id : String
  pub amount_cents : ℤ
  pub provider_reference : String
  pub paid_at : Time

-- asaas_webhook_events
pub record EventRow : Type 0 where
  pub event_id : String
  pub event_type : String
  pub provider_reference : String
  pub processed_at : Option Time

-- audit_events, with the action that each insert writes and its metadata: the amount and the provider; the
-- event with its type, the status before and the one after; the status before and the one after
pub data Action : Type 0 where
  invoice_created : ℤ → String → Action
  invoice_webhook_updated : String → String → String → String → Action
  invoice_reconciled : String → String → Action

pub record AuditRow : Type 0 where
  pub school_id : String
  pub user_id : Option String
  pub action : Action
  pub resource_id : String

-- billing_reconciliation_runs, with the counts of a completed run
pub record RunRow : Type 0 where
  pub id : String
  pub completed_at : Option Time
  pub inspected : ℕ
  pub updated : ℕ
  pub failures : ℕ

pub record Db : Type 0 where
  pub users : List UserRow
  pub accounts : List AccountRow
  pub invoices : List InvoiceRow
  pub payments : List PaymentRow
  pub events : List EventRow
  pub audits : List AuditRow
  pub runs : List RunRow

abbrev pub get_or : Option Time → Time → Time
get_or none now = now
get_or (some t) now = t

abbrev pub refers_to : String → Option String → Bool
refers_to reference none = false
refers_to reference (some r) = r == reference

-- `SET status=$2, paid_at=CASE …, cancelled_at=CASE …, provider_synced_at=now()`
abbrev pub set_status : Time → String → InvoiceRow → InvoiceRow
set_status now next row = record row {
  status = next;
  paid_at = if next == "paid" then some (get_or row.paid_at now) else row.paid_at;
  cancelled_at =
      if next == "cancelled" then some (get_or row.cancelled_at now) else row.cancelled_at;
  synced_at = some now;
}

-- `INSERT INTO payments … ON CONFLICT(invoice_id,provider_reference) … DO NOTHING`
abbrev pub insert_payment : PaymentRow → List PaymentRow → List PaymentRow
insert_payment p payments =
    if exists_where
      (λ q. q.invoice_id == p.invoice_id && q.provider_reference == p.provider_reference) payments
    then payments
    else insert p payments

abbrev pub has_event : String → List EventRow → Bool
has_event event_id = exists_where (λ e. e.event_id == event_id)

-- `WHERE provider='asaas' AND provider_reference=$1`
abbrev pub find_invoice : String → Db → Option InvoiceRow
find_invoice reference db =
    find_where (λ i. i.provider == "asaas" && refers_to reference i.provider_reference) db.invoices
