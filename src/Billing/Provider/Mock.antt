-- ===== src/Billing/Provider/Mock.antt =====
-- The MockProvider of backend/internal/billing/provider.go, at a time `now`, with `uuid` from the
-- generator and `digits` that fmt writes of a number.
use Prim.Native.String.{◌++◌}
use fluenthub.Prelude.{String, ◌||◌, some, ◌==◌, if◌then◌else◌}
use fluenthub.Prelude.Int.{ℤ, pos, leb_ℤ}
use fluenthub.Prelude.Action.{Result, ok, err, reason}
use fluenthub.Billing.Provider.{Time, Invoice, empty_invoice, Customer, BillingProvider}

unfoldable pub ensure_customer : Customer → Result String
ensure_customer customer =
    if customer.external_id == "" || customer.name == ""
    then err (reason "customer identity is required")
    else ok ("DEMO-CUSTOMER-" ++ customer.external_id)

unfoldable pub create_invoice : Time → String → (ℤ → String) → Invoice → Result Invoice
create_invoice now uuid digits invoice =
    if leb_ℤ invoice.amount_cents (pos 0)
    then err (reason "amountCents must be positive")
    else (let ref = "DEMO-" ++ uuid in
        ok (record invoice {
          provider = "mock";
          provider_reference = ref;
          status = "issued";
          issued_at = some now;
          boleto_url = some ("https://example.invalid/fluenthub/demo-invoice/" ++ ref);
          boleto_barcode = some ("DEMONSTRATION-NOT-PAYABLE-" ++ digits invoice.amount_cents);
        }))

unfoldable pub get_invoice : String → Result Invoice
get_invoice reference = err (reason "mock provider is stateless")

unfoldable pub cancel_invoice : Time → String → Result Invoice
cancel_invoice now reference =
    ok (record empty_invoice { status = "cancelled"; cancelled_at = some now })

unfoldable pub mock_provider : Time → String → (ℤ → String) → BillingProvider
unfolding ensure_customer create_invoice get_invoice cancel_invoice
mock_provider now uuid digits = record {
  name = "mock";
  ensure_customer = ensure_customer;
  create_invoice = create_invoice now uuid digits;
  get_invoice = get_invoice;
  cancel_invoice = cancel_invoice now;
}
