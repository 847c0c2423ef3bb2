-- ===== src/Billing/Provider/Asaas.antt =====
-- AsaasProvider of backend/internal/billing/asaas.go. What Go's libraries do for it stands in `Library`:
-- the HTTP client, JSON in both directions, and the parts of a URL.
use Prim.Native.String.{◌++◌, slice}
use fluenthub.Prelude.{
  ℕ, zero, ◌^◌, String, Bool, ◌&&◌, ◌||◌, not, Option, none, some, List, [], ◌∷◌, ◌==◌,
  if◌then◌else◌, ltb, leb, eqb,
}
use fluenthub.Prelude.Text.{len}
use fluenthub.Prelude.Int.{ℤ, pos, leb_ℤ}
use fluenthub.Prelude.Action.{Result, ok, err, reason, counted}
use fluenthub.Billing.Status.{map_asaas_status}
use fluenthub.Billing.Provider.{Time, Invoice, empty_invoice, Customer, BillingProvider}

pub record AsaasProvider : Type 0 where
  pub base_url : String
  pub api_key : String

-- What url.Parse finds.
pub record Url : Type 0 where
  pub scheme : String
  pub host : String
  pub hostname : String

pub record HttpRequest : Type 0 where
  pub method : String
  pub url : String
  pub access_token : String
  pub content_type : String
  pub user_agent : String
  pub body : Option String

-- A response: its status, and its body, if that can be read.
pub record HttpResponse : Type 0 where
  pub status_code : ℕ
  pub body : Result String

pub record AsaasPayment : Type 0 where
  pub id : String
  pub status : String
  pub invoice_url : String
  pub bank_slip_url : String

pub record PaymentInput : Type 0 where
  pub customer : String
  pub billing_type : String
  pub description : String
  pub due_date : Time
  pub external_reference : String
  pub value : ℤ

pub record Library : Type 0 where
  pub parse_url : String → Option Url
  pub trim_slashes : String → String
  pub path_escape : String → String
  pub send : HttpRequest → Result HttpResponse
  pub marshal_customer : Customer → String
  pub marshal_payment : PaymentInput → Result String
  pub unmarshal_id : String → Option String
  pub unmarshal_payment : String → Option AsaasPayment
  pub unmarshal_barcode : String → Option String

infixl 5 ◌>>=◌
abbrev ◌>>=◌ : {A B : Type 0} → Result A → (A → Result B) → Result B
ok a >>= f = f a
err e >>= f = err e

unfoldable pub first_string : List String → Option String
first_string [] = none
first_string (value ∷ values) = if not (value == "") then some value else first_string values

module _ (lib : Library) where
  open lib use {
    parse_url, trim_slashes, path_escape, send, marshal_customer, marshal_payment, unmarshal_id,
    unmarshal_payment, unmarshal_barcode,
  }

  abbrev is_safe : Url → Bool
  is_safe url =
      url.scheme == "https"
      || (url.scheme == "http" && (url.hostname == "localhost" || url.hostname == "127.0.0.1"))

  abbrev checked_provider : String → String → Url → Result AsaasProvider
  checked_provider base_url api_key url =
      if url.host == "" || api_key == ""
      then err (reason "invalid Asaas configuration")
      else if not (is_safe url)
      then err (reason "Asaas API must use HTTPS outside localhost")
      else ok (record { base_url = trim_slashes base_url; api_key = api_key })

  -- NewAsaasProvider
  unfoldable pub new_asaas_provider : String → String → Result AsaasProvider
  new_asaas_provider base_url api_key = elim (parse_url base_url) [
    | none ↦ err (reason "invalid Asaas configuration")
    | some url ↦ checked_provider base_url api_key url
  ]

  -- The part of `request` after client.Do; a body is read up to 1 MiB.
  abbrev read_response : HttpResponse → Result String
  read_response response = do
    payload ← response.body
    if ltb response.status_code 200 || leb 300 response.status_code
        then err (counted "Asaas returned HTTP" response.status_code)
        else ok (slice payload zero (2 ^ 20))

  -- `request`, up to the decoding of its output
  unfoldable pub request : AsaasProvider → String → String → Option String → Result String
  request p method path body = do
    response ← send (record {
      method = method;
      url = p.base_url ++ path;
      access_token = p.api_key;
      content_type = "application/json";
      user_agent = "FluentHub/0.1";
      body = body;
    })
    read_response response

  -- The end of `request`: an empty payload leaves the output as it is.
  abbrev decode : {A : Type 0} → (String → Option A) → A → String → Result A
  decode unmarshal output payload =
      if eqb (len payload) 0
      then ok output
      else elim (unmarshal payload) [ none ↦ err (reason "decode Asaas response") | some a ↦ ok a ]

  abbrev no_payment : AsaasPayment
  no_payment = record { id = ""; status = ""; invoice_url = ""; bank_slip_url = "" }

  unfoldable pub ensure_customer : AsaasProvider → Customer → Result String
  unfolding request
  ensure_customer p customer = do
    payload ← request p "POST" "/customers" (some (marshal_customer customer))
    id ← decode unmarshal_id "" payload
    if id == "" then err (reason "Asaas returned no customer ID") else ok id

  -- The barcode is asked for separately, and an error there is ignored.
  unfoldable pub fetch_barcode : AsaasProvider → String → Option String
  unfolding request
  fetch_barcode p id =
      let answer = (do
        payload ← request p "GET" ("/payments/" ++ path_escape id ++ "/identificationField") none
        decode unmarshal_barcode "" payload) in
      elim answer [ ok field ↦ (if field == "" then none else some field) | err _ ↦ none ]

  -- The invoice, with what the provider has issued.
  unfoldable pub issued : AsaasProvider → Time → Invoice → AsaasPayment → Invoice
  unfolding fetch_barcode first_string
  issued p now invoice result = record invoice {
    provider = "asaas";
    provider_reference = result.id;
    status = map_asaas_status result.status;
    boleto_url = first_string (result.bank_slip_url ∷ result.invoice_url ∷ []);
    issued_at = some now;
    boleto_barcode = elim (fetch_barcode p result.id) [
      | none ↦ invoice.boleto_barcode
      | some b ↦ some b
    ];
  }

  unfoldable pub create_invoice : AsaasProvider → Time → Invoice → Result Invoice
  unfolding issued request
  create_invoice p now invoice =
      if invoice.customer_reference == "" || leb_ℤ invoice.amount_cents (pos 0)
      then err (reason "Asaas customer and positive amount are required")
      else do
        input ← marshal_payment (record {
          customer = invoice.customer_reference;
          billing_type = "BOLETO";
          description = invoice.description;
          due_date = invoice.due_date;
          external_reference = invoice.id;
          value = invoice.amount_cents;
        })
        payload ← request p "POST" "/payments" (some input)
        result ← decode unmarshal_payment no_payment payload
        if result.id == ""
            then err (reason "Asaas returned no payment ID")
            else ok (issued p now invoice result)

  unfoldable pub get_invoice : AsaasProvider → String → Result Invoice
  unfolding request first_string
  get_invoice p reference = do
    payload ← request p "GET" ("/payments/" ++ path_escape reference) none
    result ← decode unmarshal_payment no_payment payload
    ok (record empty_invoice {
      provider = "asaas";
      provider_reference = result.id;
      status = map_asaas_status result.status;
      boleto_url = first_string (result.bank_slip_url ∷ result.invoice_url ∷ []);
    })

  unfoldable pub cancel_invoice : AsaasProvider → Time → String → Result Invoice
  unfolding request
  cancel_invoice p now reference = do
    payload ← request p "DELETE" ("/payments/" ++ path_escape reference) none
    ok (record empty_invoice {
      provider = "asaas";
      provider_reference = reference;
      status = "cancelled";
      cancelled_at = some now;
    })

  pub asaas_provider : AsaasProvider → Time → BillingProvider
  unfolding ensure_customer create_invoice get_invoice cancel_invoice
  asaas_provider p now = record {
    name = "asaas";
    ensure_customer = ensure_customer p;
    create_invoice = create_invoice p now;
    get_invoice = get_invoice p;
    cancel_invoice = cancel_invoice p now;
  }
