-- ===== src/Billing/Service/Payments/Reconciled.antt =====
-- The reconciliation keeps the invariant of the money.
use fluenthub.Prelude.{ℕ, ◌+◌, if_ind, String, ◌≡◌, some, List, [], ◌∷◌, ◌==◌, arith, inl, inr}
use fluenthub.Prelude.Action.{ok, Faults, Result-cases}
use fluenthub.Prelude.Int.{ℤ}
use fluenthub.Prelude.Tables.{All-update}
use fluenthub.Billing.Provider.{Time, BillingProvider}
use fluenthub.Billing.Status.{payment_status}
use fluenthub.Billing.Store.{Db}
use fluenthub.Billing.Service.Reconcile.{
  Candidate, ReconciliationResult, mark_synced, write_change, reconcile_answered, reconcile_round,
  reconcile_items, reconcile, candidates, clamp_limit, start_run, no_result,
}
use fluenthub.Billing.Service.Payments.{
  IsConsistent, IsCovered, payment_status-ne, apply_invoice_status-IsConsistent,
}

module _ (faults : Faults) (now : Time) (item : Candidate) where
  mark_synced-IsConsistent : (db : Db) → IsConsistent db → IsConsistent (mark_synced now item.id db)
  mark_synced-IsConsistent db h =
      All-update (IsCovered db.payments) (IsCovered db.payments) (λ i. i.id == item.id)
        (λ i. record i { synced_at = some now }) db.invoices h (λ i hit old. old)
        (λ i miss old. old)

  write_change-IsConsistent :
      (e p : String) (db : Db)
      → (write_change faults now item (payment_status item.status e p) db).0 ≡ ok tt
      → IsConsistent db
      → IsConsistent (write_change faults now item (payment_status item.status e p) db).1
  unfolding write_change
  write_change-IsConsistent e p db done h =
      let move = payment_status item.status e p in
      ground (
        arith,
        apply_invoice_status-IsConsistent now item.id item.reference move.0 item.amount db
            item.status (faults 2) (faults 3),
        payment_status-ne item.status e p,
      )

  reconcile_answered-IsConsistent :
      (e p : String) (outcome : ReconciliationResult) (db : Db)
      → IsConsistent db
      → IsConsistent
          (reconcile_answered faults now item (payment_status item.status e p) outcome db).1
  unfolding reconcile_answered
  reconcile_answered-IsConsistent e p outcome db h =
      let move = payment_status item.status e p in
      ground (
        arith,
        write_change-IsConsistent e p db,
        mark_synced-IsConsistent (write_change faults now item move db).1,
      )

module _ (provider : BillingProvider) (now : Time) where
  reconcile_round-IsConsistent :
      (faults : Faults) (item : Candidate) (outcome : ReconciliationResult) (db : Db)
      → IsConsistent db
      → IsConsistent (reconcile_round provider faults now item outcome db).1
  unfolding reconcile_round
  reconcile_round-IsConsistent faults item outcome db h =
      elim (Result-cases (provider.get_invoice item.reference)) [
        | inl (remote, e) ↦
            rw (e, reconcile_round)
              (reconcile_answered-IsConsistent faults now item "PAYMENT_RECONCILED" remote.status
                (record outcome { inspected = outcome.inspected + 1 }) db h)
        | inr (_, e) ↦
            rw (e, reconcile_round)
              (if_ind IsConsistent (faults 0) h (mark_synced-IsConsistent faults now item db h))
      ]

  reconcile_items-IsConsistent :
      (rounds : ℕ → Faults) (items : List Candidate) (outcome : ReconciliationResult) (db : Db)
      → IsConsistent db
      → IsConsistent (reconcile_items provider rounds now items outcome db).1
  unfolding reconcile_items
  reconcile_items-IsConsistent rounds [] outcome db h = h
  reconcile_items-IsConsistent rounds (item ∷ items) outcome db h =
      let (outcome', db') =
        reconcile_round provider (rounds outcome.inspected) now item outcome db in
      reconcile_items-IsConsistent rounds items outcome' db'
        (reconcile_round-IsConsistent (rounds outcome.inspected) item outcome db h)

  -- If every paid invoice has a payment, then so it is after a reconciliation, whatever the provider
  -- answers and whichever calls fail.
  pub reconcile-IsConsistent :
      (faults : Faults) (rounds : ℕ → Faults) (run_id : String) (limit : ℤ) (db : Db)
      → IsConsistent db
      → IsConsistent (reconcile provider faults rounds now run_id limit db).2
  unfolding reconcile
  reconcile-IsConsistent faults rounds run_id limit db h = ground (
    arith,
    reconcile_items-IsConsistent rounds (candidates (clamp_limit limit) (start_run run_id db))
        no_result (start_run run_id db) h,
  )
