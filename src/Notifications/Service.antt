-- ===== src/Notifications/Service.antt =====
-- backend/internal/notifications/service.go: the notifications of a user, and what is passed to the hub.
pub mod Laws
use fluenthub.Prelude.{
  ℕ, String, Bool, true, ◌&&◌, ◌||◌, not, Option, none, some, List, ◌==◌, ltb, eqb, if◌then◌else◌,
  is_some, exists_where, count_where, update_where, insert,
}
use fluenthub.Prelude.Text.{len, trim_space}
use fluenthub.Prelude.Action.{
  reason, database, ok, err, Faults, Action, require, fail_if, or_fail, query, exec, attempt, pure,
  ◌>>=◌, ◌>>◌,
}
use fluenthub.Users.Store.{Time, UserRow}

pub record SendInput : Type 0 where
  pub user_id : String
  pub kind : String
  pub title : String
  pub message : String
  pub resource_type : Option String
  pub resource_id : Option String

pub record NotificationRow : Type 0 where
  pub id : String
  pub school_id : String
  pub user_id : String
  pub kind : String
  pub title : String
  pub message : String
  pub resource_type : Option String
  pub resource_id : Option String
  pub read_at : Option Time

-- What the hub publishes to a user: the event with the fields of the notification.
pub record Event : Type 0 where
  pub user_id : String
  pub event : String
  pub id : String
  pub kind : String
  pub title : String
  pub message : String

pub record Db : Type 0 where
  pub users : List UserRow
  pub notifications : List NotificationRow
  pub published : List Event

abbrev pub is_recipient : String → String → UserRow → Bool
is_recipient school_id user_id user =
    user.id == user_id && user.school_id == school_id && user.active

abbrev pub new_row : String → String → SendInput → NotificationRow
new_row id school_id input = record {
  id = id;
  school_id = school_id;
  user_id = input.user_id;
  kind = input.kind;
  title = input.title;
  message = input.message;
  resource_type = input.resource_type;
  resource_id = input.resource_id;
  read_at = none;
}

-- `id` is the identifier that is generated. A failure to publish is dropped.
unfoldable pub send : Faults → String → String → SendInput → Action Db String
send faults id school_id input = do
  fail_if
      (input.user_id == ""
        || trim_space input.kind == ""
        || ltb (len (trim_space input.title)) 2
        || ltb (len (trim_space input.message)) 2)
      (reason "recipient, type, title and message are required")
  owns ←
      or_fail
        (query (faults 0) (λ db. exists_where (is_recipient school_id input.user_id) db.users))
        (reason "recipient not found in this school")
  require owns (reason "recipient not found in this school")
  exec (faults 1)
      (λ db. record db { notifications = insert (new_row id school_id input) db.notifications })
  attempt (faults 2) (λ db. record db {
    published =
        insert
          (record {
            user_id = input.user_id;
            event = "notification.created";
            id = id;
            kind = input.kind;
            title = input.title;
            message = input.message;
          })
          db.published;
  })
  pure id

-- COALESCE(read_at,now())
abbrev pub read_by : Time → NotificationRow → NotificationRow
read_by now row = record row { read_at = elim row.read_at [ none ↦ some now | some t ↦ some t ] }

abbrev pub is_own : String → String → NotificationRow → Bool
is_own school_id user_id row = row.school_id == school_id && row.user_id == user_id

abbrev pub is_unread : String → String → NotificationRow → Bool
is_unread school_id user_id row = is_own school_id user_id row && not (is_some row.read_at)

abbrev pub is_target : String → String → String → NotificationRow → Bool
is_target school_id user_id id row = row.id == id && is_own school_id user_id row

abbrev pub set_read : Time → (NotificationRow → Bool) → Db → Db
set_read now p db = record db { notifications = update_where p (read_by now) db.notifications }

-- The UPDATE of MarkRead, with the number of rows that it affected.
unfoldable pub mark_read : Faults → Time → String → String → String → Action Db (Unit {0})
mark_read faults now school_id user_id id = do
  affected ← query (faults 0) (λ db. count_where (is_target school_id user_id id) db.notifications)
  exec (faults 0) (set_read now (is_target school_id user_id id))
  require (eqb affected 1) (reason "notification not found")

unfoldable pub mark_all_read : Faults → Time → String → String → Action Db (Unit {0})
mark_all_read faults now school_id user_id =
    exec (faults 0) (set_read now (is_unread school_id user_id))
