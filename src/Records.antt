-- ===== src/Records.antt =====
-- `Transition` of backend/internal/records/service.go: the status of a record of the school is set.
pub mod Statuses
pub mod Rows
pub mod Laws
mod Tests
use Prim.Native.String.{◌++◌}
use fluenthub.Prelude.{
  ℕ, String, Bool, false, ◌&&◌, ◌||◌, not, Option, none, some, List, ◌==◌, eqb, if◌then◌else◌,
  count_where, update_where, insert,
}
use fluenthub.Prelude.Action.{
  reason, database, ok, err, Faults, Action, fail_if, exec, transaction, ◌>>=◌, ◌>>◌,
}

-- A row of any of the tables; `owner` is its teacher_id or its assigned_to_user_id.
pub record Row : Type 0 where
  pub id : String
  pub school_id : String
  pub owner : Option String
  pub status : String

pub record AuditEvent : Type 0 where
  pub school_id : String
  pub user_id : String
  pub action : String
  pub resource : String
  pub resource_id : String
  pub status : String

-- The tables by their names.
pub record Db : Type 0 where
  pub tables : String → List Row
  pub audits : List AuditEvent

unfoldable pub allowed : String → String → Bool
allowed resource status =
    (resource == "classes"
      && (status == "planned"
          || status == "open"
          || status == "active"
          || status == "completed"
          || status == "cancelled"
          || status == "archived"))
    || (resource == "exercises"
        && (status == "draft"
            || status == "published"
            || status == "closed"
            || status == "archived"))
    || (resource == "exams"
        && (status == "draft"
            || status == "scheduled"
            || status == "open"
            || status == "closed"
            || status == "grading"
            || status == "published"
            || status == "archived"))
    || (resource == "support"
        && (status == "open"
            || status == "assigned"
            || status == "in_progress"
            || status == "waiting_user"
            || status == "resolved"
            || status == "closed"))

unfoldable pub table_of : String → String
table_of resource =
    if resource == "classes"
    then "class_groups"
    else if resource == "support"
    then "support_tickets"
    else resource

abbrev pub is_owner : String → Option String → Bool
is_owner actor_id none = false
is_owner actor_id (some owner) = owner == actor_id

-- The resources of which an actor who is not unrestricted must be the owner.
unfoldable pub is_owned : String → Bool
is_owned resource = resource == "exercises" || resource == "exams" || resource == "support"

-- The WHERE of the command.
unfoldable pub is_target : String → String → String → String → Bool → Row → Bool
unfolding is_owned
is_target school_id actor_id resource id unrestricted row =
    row.id == id
    && row.school_id == school_id
    && (unrestricted || not (is_owned resource) || is_owner actor_id row.owner)

abbrev pub update_table : String → (List Row → List Row) → Db → Db
update_table table f db = record db {
  tables = λ name. if name == table then f (db.tables name) else db.tables name;
}

abbrev pub with_status : String → Row → Row
with_status status row = record row { status = status }

-- The UPDATE, with the number of rows that it affected.
unfoldable pub update_status : Bool → String → String → (Row → Bool) → Action Db ℕ
update_status fault table status target db = (
  if fault then err database else ok (count_where target (db.tables table)),
  if fault then db else update_table table (update_where target (with_status status)) db,
)

abbrev pub status_changed : String → String → String → String → String → AuditEvent
status_changed school_id actor_id resource id status = record {
  school_id = school_id;
  user_id = actor_id;
  action = resource ++ ".status_changed";
  resource = resource;
  resource_id = id;
  status = status;
}

unfoldable pub transition :
    Faults → String → String → String → String → String → Bool → Action Db (Unit {0})
unfolding update_status
transition faults school_id actor_id resource id status unrestricted = do
  fail_if (not (allowed resource status)) (reason "invalid status transition target")
  transaction (faults 0) (faults 3) do
    count ←
        update_status (faults 1) (table_of resource) status
          (is_target school_id actor_id resource id unrestricted)
    fail_if (not (eqb count 1)) (reason "resource not found")
    exec (faults 2) (λ db. record db {
      audits = insert (status_changed school_id actor_id resource id status) db.audits;
    })
