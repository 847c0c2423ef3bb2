-- ===== src/Billing/Service/Create.antt =====
-- `Create` of backend/internal/billing/service.go.
pub mod References
pub mod Laws
use fluenthub.Prelude.{
  ℕ, String, ◌≡◌, Bool, true, false, ◌&&◌, ◌||◌, not, Option, none, some, List, [], ◌∷◌, ◌==◌,
  if◌then◌else◌, arith, update_where, find_where, exists_where, insert, ltb, eqb,
}
use fluenthub.Prelude.Text.{len}
use fluenthub.Prelude.Int.{ℤ, pos, ltb_ℤ}
use fluenthub.Prelude.Action.{
  Error, reason, Result, ok, err, Faults, Action, pure, fail, lift, fail_if, query_row, or_fail,
  exec, when, branch, transaction, ◌>>=◌, ◌>>◌,
}
use fluenthub.Billing.Provider.{Time, Invoice, empty_invoice, Customer, BillingProvider}
use fluenthub.Billing.Store.{Db, UserRow, AccountRow, InvoiceRow, AuditRow, invoice_created}

pub record CreateInvoiceInput : Type 0 where
  pub student_id : String
  pub description : String
  pub enrollment_id : Option String
  pub amount_cents : ℤ
  pub due_date : Time

unfoldable pub is_incomplete : CreateInvoiceInput → Bool
is_incomplete input =
    input.student_id == ""
    || ltb (len input.description) 3
    || ltb_ℤ input.amount_cents (pos 1)
    || eqb input.due_date 0

abbrev pub find_student : String → String → Db → Option UserRow
find_student school_id student_id db =
    find_where (λ u. u.id == student_id && u.school_id == school_id && u.active) db.users

abbrev pub coalesce : Option AccountRow → String
coalesce none = ""
coalesce (some a) = elim a.customer_reference [ none ↦ "" | some r ↦ r ]

-- The reference that the account holds, or "" where the query fails or finds nothing.
abbrev pub known_reference : Bool → String → String → Db → String
known_reference fault school_id student_id db =
    if fault
    then ""
    else coalesce (
        find_where (λ a. a.school_id == school_id && a.student_id == student_id && a.active)
          db.accounts)

-- `INSERT INTO billing_accounts … ON CONFLICT(school_id,student_id) DO UPDATE …`
unfoldable pub upsert_account : String → String → String → List AccountRow → List AccountRow
upsert_account school_id student_id reference accounts =
    let this = λ (a : AccountRow). a.school_id == school_id && a.student_id == student_id in
    if exists_where this accounts
    then update_where this (λ a. record a { customer_reference = some reference; active = true })
        accounts
    else insert
        (record {
          school_id = school_id;
          student_id = student_id;
          customer_reference = some reference;
          active = true;
        })
        accounts

-- The customer is made at the provider, and its reference is stored.
unfoldable pub new_reference : BillingProvider → Faults → String → UserRow → Action Db String
new_reference provider faults school_id student = do
  reference ← lift (
      provider.ensure_customer
        (record { external_id = student.id; name = student.name; email = student.email }))
  exec (faults 2)
      (λ d. record d { accounts = upsert_account school_id student.id reference d.accounts })
  pure reference

unfoldable pub customer_reference : BillingProvider → Faults → String → UserRow → Action Db String
unfolding new_reference
customer_reference provider faults school_id student db =
    let known = known_reference (faults 1) school_id student.id db in
    branch (known == "") (new_reference provider faults school_id student) (pure known) db

-- The row that the second INSERT writes.
abbrev pub invoice_row : String → Invoice → InvoiceRow
invoice_row school_id invoice = record {
  id = invoice.id;
  school_id = school_id;
  student_id = invoice.student_id;
  enrollment_id = invoice.enrollment_id;
  description = invoice.description;
  amount_cents = invoice.amount_cents;
  due_date = invoice.due_date;
  status = invoice.status;
  provider = invoice.provider;
  provider_reference = some invoice.provider_reference;
  boleto_url = invoice.boleto_url;
  boleto_barcode = invoice.boleto_barcode;
  issued_at = invoice.issued_at;
  paid_at = none;
  cancelled_at = none;
  synced_at = none;
}

abbrev pub audit_row : String → String → Invoice → AuditRow
audit_row school_id actor_id invoice = record {
  school_id = school_id;
  user_id = some actor_id;
  action = invoice_created invoice.amount_cents invoice.provider;
  resource_id = invoice.id;
}

unfoldable pub store_invoice : Faults → String → String → Invoice → Action Db Invoice
store_invoice faults school_id actor_id invoice = transaction (faults 3) (faults 6) do
  exec (faults 4)
      (λ db. record db { invoices = insert (invoice_row school_id invoice) db.invoices })
  exec (faults 5)
      (λ db. record db { audits = insert (audit_row school_id actor_id invoice) db.audits })
  pure invoice

-- What the provider is asked to issue.
abbrev pub request : String → String → String → CreateInvoiceInput → Invoice
request uuid school_id reference input = record empty_invoice {
  id = uuid;
  school_id = school_id;
  student_id = input.student_id;
  customer_reference = reference;
  enrollment_id = input.enrollment_id;
  description = input.description;
  amount_cents = input.amount_cents;
  due_date = input.due_date;
}

unfoldable pub create :
    BillingProvider → Faults → String → String → String → CreateInvoiceInput → Action Db Invoice
unfolding is_incomplete customer_reference store_invoice
create provider faults uuid school_id actor_id input = do
  fail_if (is_incomplete input)
      (reason "student, description, positive amountCents and dueDate are required")
  student ←
      or_fail (query_row (faults 0) (find_student school_id input.student_id))
        (reason "student not found in this school")
  reference ←
      customer_reference provider faults school_id (record student { id = input.student_id })
  invoice ← lift (provider.create_invoice (request uuid school_id reference input))
  store_invoice faults school_id actor_id invoice
