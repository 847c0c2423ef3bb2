-- ===== src/Billing/Provider.antt =====
-- backend/internal/billing/provider.go: the invoice and the interface of a provider. The child `Mock`
-- is the provider of the demonstration, `Asaas` the client of a payment service.
pub mod Mock
pub mod Cents
pub mod Asaas
use fluenthub.Prelude.{
  ℕ, String, ◌≡◌, Bool, true, false, ◌||◌, Option, none, some, ◌==◌, if◌then◌else◌, arith,
}
use fluenthub.Prelude.Int.{ℤ, pos, leb_ℤ}
use fluenthub.Prelude.Action.{Error, reason, Result, ok, err}

-- A time is the number of nanoseconds since Go's zero time.
abbrev pub Time : Type 0
Time = ℕ

pub record Invoice : Type 0 where
  pub id : String
  pub school_id : String
  pub student_id : String
  pub description : String
  pub status : String
  pub provider : String
  pub provider_reference : String
  pub customer_reference : String
  pub enrollment_id : Option String
  pub amount_cents : ℤ
  pub due_date : Time
  pub boleto_url : Option String
  pub boleto_barcode : Option String
  pub issued_at : Option Time
  pub paid_at : Option Time
  pub cancelled_at : Option Time

-- Invoice{}
abbrev pub empty_invoice : Invoice
empty_invoice = record {
  id = "";
  school_id = "";
  student_id = "";
  description = "";
  status = "";
  provider = "";
  provider_reference = "";
  customer_reference = "";
  enrollment_id = none;
  amount_cents = pos 0;
  due_date = 0;
  boleto_url = none;
  boleto_barcode = none;
  issued_at = none;
  paid_at = none;
  cancelled_at = none;
}

pub record Customer : Type 0 where
  pub external_id : String
  pub name : String
  pub email : String

-- The interface. A call sees the outside world, so two calls with the same argument may answer
-- differently: an operation takes the answers of one run.
pub record BillingProvider : Type 0 where
  pub name : String
  pub ensure_customer : Customer → Result String
  pub create_invoice : Invoice → Result Invoice
  pub get_invoice : String → Result Invoice
  pub cancel_invoice : String → Result Invoice
