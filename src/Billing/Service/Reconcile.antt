-- ===== src/Billing/Service/Reconcile.antt =====
-- `Reconcile` of backend/internal/billing/service.go: the invoices that are still open at the provider
-- are brought to the status that it reports.
pub mod Counts
pub mod Rounds
use fluenthub.Prelude.{
  ℕ, suc, ◌+◌, String, ◌≡◌, Bool, true, false, ◌&&◌, ◌||◌, not, Option, none, some, List, [], ◌∷◌,
  map, ◌==◌, if◌then◌else◌, arith, update_where, select_where, insert, take, ltb, leb, is_some,
}
use fluenthub.Prelude.Int.{ℤ, pos, pos_part, ltb_ℤ}
use fluenthub.Prelude.Action.{
  Error, database, counted, Result, ok, err, is_ok, reason, Faults, Action, pure, lift, exec, when,
  ◌>>=◌, ◌>>◌,
}
use fluenthub.Billing.Provider.{Time, Invoice, BillingProvider}
use fluenthub.Billing.Status.{payment_status}
use fluenthub.Billing.Store.{Db, InvoiceRow, RunRow, AuditRow, invoice_reconciled}
use fluenthub.Billing.Service.{apply_invoice_status}

pub record ReconciliationResult : Type 0 where
  pub inspected : ℕ
  pub updated : ℕ
  pub failures : ℕ

-- What was read of an invoice before the loop.
pub record Candidate : Type 0 where
  pub id : String
  pub school_id : String
  pub reference : String
  pub status : String
  pub amount : ℤ

abbrev pub is_open : InvoiceRow → Bool
is_open i =
    i.provider == "asaas"
    && is_some i.provider_reference
    && (i.status == "issued" || i.status == "overdue" || i.status == "paid")

-- `ORDER BY provider_synced_at NULLS FIRST,created_at`: the rows stand in the order of their creation.
abbrev before : Option Time → Option Time → Bool
before none t = true
before (some s) none = false
before (some s) (some t) = leb s t

unfoldable pub insert_by_sync : InvoiceRow → List InvoiceRow → List InvoiceRow
insert_by_sync i [] = i ∷ []
insert_by_sync i (j ∷ rows) =
    if before i.synced_at j.synced_at then i ∷ j ∷ rows else j ∷ insert_by_sync i rows

unfoldable pub order_by_sync : List InvoiceRow → List InvoiceRow
unfolding insert_by_sync
order_by_sync [] = []
order_by_sync (i ∷ rows) = insert_by_sync i (order_by_sync rows)

abbrev pub candidate : InvoiceRow → Candidate
candidate i = record {
  id = i.id;
  school_id = i.school_id;
  reference = elim i.provider_reference [ none ↦ "" | some r ↦ r ];
  status = i.status;
  amount = i.amount_cents;
}

unfoldable pub candidates : ℕ → Db → List Candidate
unfolding order_by_sync
candidates limit db = map candidate (take limit (order_by_sync (select_where is_open db.invoices)))

abbrev pub mark_synced : Time → String → Db → Db
mark_synced now id db = record db {
  invoices = update_where (λ i. i.id == id) (λ i. record i { synced_at = some now }) db.invoices;
}

-- The writes of a change: the status, and an audit event.
unfoldable pub write_change : Faults → Time → Candidate → String × Bool → Action Db (Unit {0})
unfolding apply_invoice_status
write_change faults now item (next_status, changed) = when changed do
  apply_invoice_status (faults 2) (faults 3) now item.id item.reference item.status next_status
      item.amount
  exec (faults 4) (λ db. record db {
    audits =
        insert
          (record {
            school_id = item.school_id;
            user_id = none;
            action = invoice_reconciled item.status next_status;
            resource_id = item.id;
          })
          db.audits;
  })

-- One round of the loop for an invoice that the provider has answered.
unfoldable pub reconcile_answered :
    Faults
    → Time
    → Candidate
    → String × Bool
    → ReconciliationResult
    → Db
    → ReconciliationResult × Db
unfolding write_change
reconcile_answered faults now item move outcome db =
    if faults 1
    then (record outcome { failures = outcome.failures + 1 }, db)
    else (let (written, db1) = write_change faults now item move db in
        let counted_result =
          if move.1 && is_ok written
          then record outcome { updated = outcome.updated + 1 }
          else outcome in
        let (synced, db2) = (lift written >> exec (faults 5) (mark_synced now item.id)) db1 in
        if is_ok synced && not (faults 6)
        then (counted_result, db2)
        else (record counted_result { failures = counted_result.failures + 1 }, db))

-- One round of the loop.
unfoldable pub reconcile_round :
    BillingProvider
    → Faults
    → Time
    → Candidate
    → ReconciliationResult
    → Db
    → ReconciliationResult × Db
unfolding reconcile_answered
reconcile_round provider faults now item outcome db =
    let seen = record outcome { inspected = outcome.inspected + 1 } in
    elim (provider.get_invoice item.reference) [
      | err _ ↦ (
        record seen { failures = seen.failures + 1 },
        if faults 0 then db else mark_synced now item.id db,
      )
      | ok remote ↦
          reconcile_answered faults now item
            (payment_status item.status "PAYMENT_RECONCILED" remote.status) seen db
    ]

-- The loop: the calls of each round fail as `rounds` says of its number.
unfoldable pub reconcile_items :
    BillingProvider
    → (ℕ → Faults)
    → Time
    → List Candidate
    → ReconciliationResult
    → Db
    → ReconciliationResult × Db
unfolding reconcile_round
reconcile_items provider rounds now [] outcome db = (outcome, db)
reconcile_items provider rounds now (item ∷ items) outcome db =
    let (outcome', db') = reconcile_round provider (rounds outcome.inspected) now item outcome db in
    reconcile_items provider rounds now items outcome' db'

abbrev pub no_result : ReconciliationResult
no_result = record { inspected = 0; updated = 0; failures = 0 }

abbrev pub clamp_limit : ℤ → ℕ
clamp_limit limit = if ltb_ℤ limit (pos 1) || ltb_ℤ (pos 500) limit then 100 else pos_part limit

abbrev pub start_run : String → Db → Db
start_run run_id db = record db {
  runs =
      insert (record { id = run_id; completed_at = none; inspected = 0; updated = 0; failures = 0 })
        db.runs;
}

abbrev pub finish_run : Time → String → ReconciliationResult → Db → Db
finish_run now run_id outcome db = record db {
  runs =
      update_where (λ r. r.id == run_id)
        (λ r. record r {
          completed_at = some now;
          inspected = outcome.inspected;
          updated = outcome.updated;
          failures = outcome.failures;
        })
        db.runs;
}

-- `Reconcile`, which returns its counts beside the error, if there is one. `faults` numbers the calls
-- around the loop: the start of the run, the query with the reading of its rows, the end of the run.
unfoldable pub reconcile :
    BillingProvider
    → Faults
    → (ℕ → Faults)
    → Time
    → String
    → ℤ
    → Db
    → ReconciliationResult × Option Error × Db
unfolding candidates reconcile_items
reconcile provider faults rounds now run_id limit db =
    if not (provider.name == "asaas")
    then (no_result, none, db)
    else if faults 0
    then (no_result, some database, db)
    else (let started = start_run run_id db in
        if faults 1
        then (no_result, some database, started)
        else (let (outcome, db') =
              reconcile_items provider rounds now (candidates (clamp_limit limit) started) no_result
                started in
            if faults 2
            then (outcome, some database, db')
            else (let finished = finish_run now run_id outcome db' in
                if ltb 0 outcome.failures
                then (
                  outcome,
                  some (counted "Asaas reconciliation completed with failures" outcome.failures),
                  finished,
                )
                else (outcome, none, finished))))
