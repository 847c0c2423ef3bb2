-- ===== src/Billing/Service/Reconcile/Rounds.antt =====
-- What one round of the reconciliation does to an invoice that the provider reports as changed.
use fluenthub.Prelude.{
  ◌⊎◌, ◌+◌, String, ◌≡◌, refl, true, false, List, [], ◌∷◌, some, ◌==◌, if◌then◌else◌, arith, All,
  update_where, insert, none, ◌||◌, Bool, inl, inr,
}
use fluenthub.Prelude.Action.{ok, err, Error, Faults, no_faults, Result-cases}
use fluenthub.Billing.Provider.{Time, Invoice, BillingProvider}
use fluenthub.Billing.Status.{payment_status}
use fluenthub.Billing.Store.{Db, InvoiceRow, set_status, invoice_reconciled}
use fluenthub.Billing.Service.{apply_invoice_status}
use fluenthub.Billing.Service.Reconcile.{
  Candidate, ReconciliationResult, write_change, reconcile_answered, reconcile_round,
}

abbrev pub HasStatus : String → String → InvoiceRow → Type 0
HasStatus id status i = ((i.id == id) ≡ false) ⊎ (i.status ≡ status)

overwritten :
    (now : Time) (id next : String) (rows : List InvoiceRow)
    → All (HasStatus id next) (
        update_where
          (λ i. i.id == id)
          (λ i. record i { synced_at = some now })
          (update_where (λ i. i.id == id) (set_status now next) rows))
unfolding update_where
overwritten now id next [] = tt
overwritten now id next (row ∷ rows) = (first, overwritten now id next rows)
  where
    first : HasStatus id next (
        let row' = if row.id == id then set_status now next row else row in
        if row'.id == id then record row' { synced_at = some now } else row')
    first = ground arith

abbrev pub IsSynced : Time → String → InvoiceRow → Type 0
IsSynced now id i = ((i.id == id) ≡ false) ⊎ (i.synced_at ≡ some now)

synced :
    (now : Time) (id : String) (rows : List InvoiceRow)
    → All
        (IsSynced now id)
        (update_where (λ i. i.id == id) (λ i. record i { synced_at = some now }) rows)
unfolding update_where
synced now id [] = tt
synced now id (row ∷ rows) = (first, synced now id rows)
  where
    first : IsSynced now id (if row.id == id then record row { synced_at = some now } else row)
    first = ground arith

module _ (provider : BillingProvider) (now : Time) (item : Candidate)
    (outcome : ReconciliationResult) (db : Db) (remote : Invoice) (next : String)
    (answer : provider.get_invoice item.reference ≡ ok remote)
    (move : payment_status item.status "PAYMENT_RECONCILED" remote.status ≡ (next, true)) where
  -- A round in which no call fails gives the invoice the status that follows from what was read of it
  -- before the loop, whatever its status is by then: also if it was cancelled in between.
  pub reconcile_round_overwrites :
      let (r, db') = reconcile_round provider no_faults now item outcome db in
      (r ≡ record outcome { inspected = outcome.inspected + 1; updated = outcome.updated + 1 })
      × All (HasStatus item.id next) db'.invoices
  unfolding reconcile_round reconcile_answered write_change apply_invoice_status
  reconcile_round_overwrites =
      rw (answer, reconcile_round)
        (rw move (ground (arith, overwritten now item.id next db.invoices)))

-- A round that has brought an invoice to the status that follows from the answer of the provider.
abbrev pub Moved :
    Time
    → Candidate
    → ReconciliationResult
    → Db
    → ReconciliationResult
    → Db
    → String
    → Bool
    → Type 0
Moved now item outcome db r db' next changed =
    (r.failures ≡ outcome.failures)
    × All (IsSynced now item.id) db'.invoices
    × (((changed ≡ true)
          × (r.updated ≡ outcome.updated + 1)
          × All (HasStatus item.id next) db'.invoices
          × (db'.audits
              ≡ insert
                  (record {
                    school_id = item.school_id;
                    user_id = none;
                    action = invoice_reconciled item.status next;
                    resource_id = item.id;
                  })
                  db.audits))
        ⊎ ((changed ≡ false)
            × (r.updated ≡ outcome.updated)
            × (db' ≡ record db { invoices = db'.invoices })))

-- A round that has failed after the answer of the provider.
abbrev pub Lost : Faults → ReconciliationResult → Db → ReconciliationResult → Db → Bool → Type 0
Lost faults outcome db r db' changed =
    (r.failures ≡ outcome.failures + 1)
    × (db' ≡ db)
    × ((faults 1 || faults 2 || faults 3 || faults 4 || faults 5 || faults 6) ≡ true)
    × (((r.updated ≡ outcome.updated)
          × ((changed ≡ false) ⊎ ((faults 1 || faults 2 || faults 3 || faults 4) ≡ true)))
        ⊎ ((r.updated ≡ outcome.updated + 1) × (changed ≡ true) × ((faults 5 || faults 6) ≡ true)))

reconcile_answered-Moved :
    (faults : Faults) (now : Time) (item : Candidate) (next : String) (changed : Bool)
    (outcome : ReconciliationResult) (db : Db)
    → let (r, db') = reconcile_answered faults now item (next, changed) outcome db in
      (r.inspected ≡ outcome.inspected)
      × (Moved now item outcome db r db' next changed ⊎ Lost faults outcome db r db' changed)
unfolding reconcile_answered write_change apply_invoice_status
reconcile_answered-Moved faults now item next changed outcome db = ground (
  arith,
  overwritten now item.id next db.invoices,
  synced now item.id db.invoices,
  synced now item.id (update_where (λ i. i.id == item.id) (set_status now next) db.invoices),
)

-- A round counts one more invoice as inspected. If the provider answers, then either the round has no failure: the
-- rows of the invoice are marked as synchronised, and if the status changes then they have the new one, an
-- audit event is added and the invoice counts as updated, while else nothing but rows of invoices changes. Or a
-- call has failed, the round counts as a failure and nothing changes; the invoice counts as updated as well
-- only if its status changes and one of the two last calls has failed, and it does if the status
-- changes and no call before these two has failed. If the provider answers with an error, the round counts as
-- a failure and nothing is written but the time of the synchronisation, unless that call fails too.
pub reconcile_round-Moved :
    (provider : BillingProvider) (faults : Faults) (now : Time) (item : Candidate)
    (outcome : ReconciliationResult) (db : Db)
    → let (r, db') = reconcile_round provider faults now item outcome db in
      (r.inspected ≡ outcome.inspected + 1)
      × (((remote : Invoice) × (next : String) × (changed : Bool) × (provider.get_invoice
                item.reference
              ≡ ok remote)
            × (payment_status item.status "PAYMENT_RECONCILED" remote.status ≡ (next, changed))
            × (Moved now item outcome db r db' next changed ⊎ Lost faults outcome db r db' changed))
          ⊎ ((e : Error) × (provider.get_invoice item.reference ≡ err e)
              × (r.failures ≡ outcome.failures + 1)
              × (r.updated ≡ outcome.updated)
              × (db' ≡ record db {
                invoices =
                    if faults 0
                    then db.invoices
                    else update_where
                        (λ i. i.id == item.id)
                        (λ i. record i { synced_at = some now })
                        db.invoices;
              })))
unfolding reconcile_round
reconcile_round-Moved provider faults now item outcome db =
    elim (Result-cases (provider.get_invoice item.reference)) [
      | inl (remote, e) ↦
          let (next, changed) = payment_status item.status "PAYMENT_RECONCILED" remote.status in
          let (seen, ended) =
            reconcile_answered-Moved faults now item next changed
              (record outcome { inspected = outcome.inspected + 1 }) db in
          rw (e, reconcile_round) (seen, inl (remote, next, changed, refl, refl, ended))
      | inr (failed, e) ↦
          rw (e, reconcile_round) (refl, inr (failed, refl, refl, refl, ground arith))
    ]
