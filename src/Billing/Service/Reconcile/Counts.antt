-- ===== src/Billing/Service/Reconcile/Counts.antt =====
-- What the counts of a reconciliation mean.
use fluenthub.Prelude.{
  ℕ, ◌+◌, ◌≤◌, String, ◌≡◌, Bool, List, [], ◌∷◌, arith, inl, inr, length, take, select_where,
}
use fluenthub.Prelude.Action.{Faults, Result-cases}
use fluenthub.Prelude.Int.{ℤ}
use fluenthub.Prelude.Tables.{length-take_le, length-map}
use fluenthub.Billing.Provider.{Time, BillingProvider}
use fluenthub.Billing.Status.{payment_status}
use fluenthub.Billing.Store.{Db}
use fluenthub.Billing.Service.Reconcile.{
  Candidate, ReconciliationResult, reconcile_answered, reconcile_round, reconcile_items, reconcile,
  candidates, clamp_limit, start_run, no_result, order_by_sync, candidate, is_open,
}

-- Neither count passes the number of invoices inspected.
abbrev IsBounded : ReconciliationResult → Type 0
IsBounded r = (r.updated ≤ r.inspected) × (r.failures ≤ r.inspected)

module _ (provider : BillingProvider) (now : Time) where
  reconcile_answered-counts :
      (faults : Faults) (item : Candidate) (move : String × Bool) (outcome : ReconciliationResult)
      (db : Db)
      → let r = (reconcile_answered faults now item move outcome db).0 in
        (r.inspected ≡ outcome.inspected)
        × (r.updated ≤ outcome.updated + 1)
        × (r.failures ≤ outcome.failures + 1)
  unfolding reconcile_answered
  reconcile_answered-counts faults item move outcome db = ground arith

  reconcile_round-counts :
      (faults : Faults) (item : Candidate) (outcome : ReconciliationResult) (db : Db)
      → let r = (reconcile_round provider faults now item outcome db).0 in
        (r.inspected ≡ outcome.inspected + 1)
        × (r.updated ≤ outcome.updated + 1)
        × (r.failures ≤ outcome.failures + 1)
  unfolding reconcile_round
  reconcile_round-counts faults item outcome db =
      elim (Result-cases (provider.get_invoice item.reference)) [
        | inl (remote, e) ↦
            rw (e, reconcile_round)
              (reconcile_answered-counts faults item
                (payment_status item.status "PAYMENT_RECONCILED" remote.status)
                (record outcome { inspected = outcome.inspected + 1 }) db)
        | inr (_, e) ↦ rw (e, reconcile_round) (omega arith)
      ]

  reconcile_items-counts :
      (rounds : ℕ → Faults) (items : List Candidate) (outcome : ReconciliationResult) (db : Db)
      → IsBounded outcome
      → let r = (reconcile_items provider rounds now items outcome db).0 in
        (r.inspected ≡ outcome.inspected + length items) × IsBounded r
  unfolding reconcile_items
  reconcile_items-counts rounds [] outcome db h = omega arith
  reconcile_items-counts rounds (item ∷ items) outcome db h =
      let (outcome', db') =
        reconcile_round provider (rounds outcome.inspected) now item outcome db in
      omega (
        arith,
        reconcile_round-counts (rounds outcome.inspected) item outcome db,
        reconcile_items-counts rounds items outcome' db'
            (omega (arith, reconcile_round-counts (rounds outcome.inspected) item outcome db)),
      )

length-candidates : (limit : ℕ) (db : Db) → length (candidates limit db) ≤ limit
unfolding candidates
length-candidates limit db = omega (
  arith,
  length-map candidate (take limit (order_by_sync (select_where is_open db.invoices))),
  length-take_le limit (order_by_sync (select_where is_open db.invoices)),
)

clamp_limit-le : (limit : ℤ) → clamp_limit limit ≤ 500
clamp_limit-le limit = ground arith

-- A reconciliation inspects 500 invoices at most, and counts no more updates and no more failures than
-- it has inspected, whatever the limit that it is given and whichever calls fail.
pub reconcile_counts :
    (provider : BillingProvider) (faults : Faults) (rounds : ℕ → Faults) (now : Time)
    (run_id : String) (limit : ℤ) (db : Db)
    → let r = (reconcile provider faults rounds now run_id limit db).0 in
      (r.inspected ≤ 500) × (r.updated ≤ r.inspected) × (r.failures ≤ r.inspected)
unfolding reconcile
reconcile_counts provider faults rounds now run_id limit db =
    let started = start_run run_id db in
    ground (
      arith,
      reconcile_items-counts provider now rounds (candidates (clamp_limit limit) started) no_result
          started (omega arith),
      length-candidates (clamp_limit limit) started,
      clamp_limit-le limit,
    )
