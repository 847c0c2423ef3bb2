-- ===== src/Records/Laws.antt =====
-- Who may set a status, and of what.
use Prim.Native.String.{◌++◌ as append}
use fluenthub.Prelude.{
  ℕ, String, ◌≡◌, ◌≢◌, ◌⊎◌, inl, inr, sym, ap, ◌∙◌, Bool, true, false, ◌==◌, ◌||◌, List, ◌∷◌, ◌++◌,
  eq_iff, eq_refl, count_where, update_where, insert, arith,
}
use fluenthub.Records.Rows.{
  IsTarget, IsSole, is_owned-Admits, is_target-IsTarget, one_updated, count_where-one,
}
use fluenthub.Prelude.Tables.{All-map}
use fluenthub.Prelude.Action.{ok, is_ok, Faults}
use fluenthub.Records.{
  Row, Db, allowed, table_of, is_target, with_status, update_status, transition,
}
use fluenthub.Records.Statuses.{Admits, allowed-Admits, Admits-allowed}

-- What a transition does, by the rows that it selects.
transition-rows :
    (faults : Faults) (school_id actor_id resource id status : String) (unrestricted : Bool)
    (name : String) (db : Db)
    → let (r, db') = transition faults school_id actor_id resource id status unrestricted db in
      let target = is_target school_id actor_id resource id unrestricted in
      let table = table_of resource in
      ((r ≡ ok tt)
        × (allowed resource status ≡ true)
        × (count_where target (db.tables table) ≡ 1)
        × (db'.tables table ≡ update_where target (with_status status) (db.tables table))
        × ((name == table ≡ true) ⊎ (db'.tables name ≡ db.tables name))
        × (db'.audits
            ≡ insert
                (record {
                  school_id = school_id;
                  user_id = actor_id;
                  action = append resource ".status_changed";
                  resource = resource;
                  resource_id = id;
                  status = status;
                })
                db.audits))
      ⊎ ((is_ok r ≡ false)
          × (db' ≡ db)
          × (((faults 0 || faults 1 || faults 2 || faults 3) ≡ true)
              ⊎ (allowed resource status ≡ false)
              ⊎ (count_where target (db.tables table) ≢ 1)))
unfolding transition update_status
transition-rows faults school_id actor_id resource id status unrestricted name db =
    ground (arith, eq_refl (table_of resource))

module _ (school_id actor_id resource id status : String) (unrestricted : Bool) (db : Db) where
  abbrev Target : Row → Type 0
  Target = IsTarget school_id actor_id resource id unrestricted

  -- One target in the table that admits the status is one row that the UPDATE selects.
  count_where-IsSole :
      (table : String) (before : List Row) (row : Row) (after : List Row)
      → Admits resource status table
      → IsSole Target (db.tables table) before row after
      → (allowed resource status ≡ true)
        × (count_where
              (is_target school_id actor_id resource id unrestricted)
              (db.tables (table_of resource))
            ≡ 1)
  count_where-IsSole table before row after admits (split, hit, first, last) =
      let (admitted, named) = Admits-allowed resource status table admits in
      let test =
        is_target-IsTarget school_id actor_id resource id unrestricted
          (is_owned-Admits resource status table admits) in
      let p = is_target school_id actor_id resource id unrestricted in
      let missed = λ (r : Row) (no : ¬ Target r). not_true (p r) (λ e. no ((test r).0 e)) in
      (
        admitted,
        ap (λ t. count_where p (db.tables t)) (sym named)
            ∙ ap (count_where p) split
            ∙ count_where-one p (with_status status) before row after ((test row).1 hit)
                (All-map (λ r. ¬ Target r) (λ r. p r ≡ false) before first missed)
                (All-map (λ r. ¬ Target r) (λ r. p r ≡ false) after last missed),
      )
    where
      not_true : (b : Bool) → ¬ (b ≡ true) → b ≡ false
      not_true b h = ground arith

  -- The row that a transition changes, when the rows that it selects are one.
  update_where-IsSole :
      allowed resource status ≡ true
      → let p = is_target school_id actor_id resource id unrestricted in
        let rows = db.tables (table_of resource) in
        count_where p rows ≡ 1
        → (before : List Row) × (row : Row) × (after : List Row) × IsSole Target rows before row
            after
          × (update_where p (with_status status) rows
              ≡ before
                ++ record {
                  id = row.id;
                  school_id = row.school_id;
                  owner = row.owner;
                  status = status;
                }
                  ∷ after)
  update_where-IsSole admitted one =
      let p = is_target school_id actor_id resource id unrestricted in
      let test = is_target-IsTarget school_id actor_id resource id unrestricted (
        is_owned-Admits resource status (table_of resource)
          (allowed-Admits resource status admitted)) in
      let missed = λ (r : Row) (e : p r ≡ false) (t : Target r). not_both (p r) e ((test r).1 t) in
      let (before, row, after, split, hit, first, last, updated) =
        one_updated p (with_status status) (db.tables (table_of resource)) one in
      (
        before,
        row,
        after,
        (
          split,
          (test row).0 hit,
          All-map (λ r. p r ≡ false) (λ r. ¬ Target r) before first missed,
          All-map (λ r. p r ≡ false) (λ r. ¬ Target r) after last missed,
        ),
        updated,
      )
    where
      not_both : (b : Bool) → b ≡ false → ¬ (b ≡ true)
      not_both b off on = cc

-- A transition either succeeds, with a status that the resource admits, and one row of its table alone has
-- the id and the school, and the actor as its owner where the resource has owners and the actor is not
-- unrestricted. That row has the status then and is the same but for it, every other row and every other
-- table stays as it was, and one audit event is added. Or it fails and nothing changes: then a call has
-- failed, or the resource does not admit the status, or there is not one such row alone.
pub transition_lem :
    (faults : Faults) (school_id actor_id resource id status : String) (unrestricted : Bool)
    (name : String) (db : Db)
    → let (r, db') = transition faults school_id actor_id resource id status unrestricted db in
      let target = IsTarget school_id actor_id resource id unrestricted in
      ((r ≡ ok tt)
        × ((table : String) × (before : List Row) × (row : Row) × (after : List Row) × Admits
              resource status table
            × IsSole target (db.tables table) before row after
            × (db'.tables table
                ≡ before
                  ++ record {
                    id = row.id;
                    school_id = row.school_id;
                    owner = row.owner;
                    status = status;
                  }
                    ∷ after)
            × ((name ≡ table) ⊎ (db'.tables name ≡ db.tables name)))
        × (db'.audits
            ≡ insert
                (record {
                  school_id = school_id;
                  user_id = actor_id;
                  action = append resource ".status_changed";
                  resource = resource;
                  resource_id = id;
                  status = status;
                })
                db.audits))
      ⊎ ((is_ok r ≡ false)
          × (db' ≡ db)
          × (((faults 0 || faults 1 || faults 2 || faults 3) ≡ true)
              ⊎ ¬ (
                  (table : String) × (before : List Row) × (row : Row) × (after : List Row) × Admits
                    resource status table
                  × IsSole target (db.tables table) before row after)))
transition_lem faults school_id actor_id resource id status unrestricted name db =
    elim (transition-rows faults school_id actor_id resource id status unrestricted name db) [
      | inl (done, admitted, one, updated, others, audited) ↦
          let (before, row, after, sole, changed) =
            update_where-IsSole school_id actor_id resource id status unrestricted db admitted
              one in
          inl (
            done,
            (
              table_of resource,
              before,
              row,
              after,
              allowed-Admits resource status admitted,
              sole,
              updated ∙ changed,
              same_or name (table_of resource) others,
            ),
            audited,
          )
      | inr (failed, same, why) ↦ inr (
        failed,
        same,
        elim why [
          | inl fault ↦ inl fault
          | inr none_sole ↦ inr (λ (table, before, row, after, admits, sole). refused none_sole (
              count_where-IsSole school_id actor_id resource id status unrestricted db table before
                row after admits sole))
        ],
      )
    ]
  where
    same_or : {A : Type 0} (s t : String) → ((s == t ≡ true) ⊎ A) → (s ≡ t) ⊎ A
    same_or s t (inl e) = inl (ground (arith, eq_iff s t))
    same_or s t (inr a) = inr a

    refused : {b : Bool} {n : ℕ} → ((b ≡ false) ⊎ (n ≢ 1)) → ¬ ((b ≡ true) × (n ≡ 1))
    refused (inl off) (on, one) = cc
    refused (inr other) (on, one) = other one
