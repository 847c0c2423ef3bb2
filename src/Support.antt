-- ===== src/Support.antt =====
-- backend/internal/support/service.go: the assignment of tickets and the messages on them.
pub mod Laws
mod Tests
use fluenthub.Prelude.{
  ℕ, String, Bool, false, ◌&&◌, ◌||◌, not, Option, none, some, List, ◌==◌, ltb, if◌then◌else◌,
  is_some, exists_where, update_where, insert,
}
use fluenthub.Prelude.Text.{len, trim_space}
use fluenthub.Prelude.Action.{
  reason, Faults, Action, require, fail_if, or_fail, query, exec, transaction, pure, ◌>>=◌, ◌>>◌,
}
use fluenthub.Users.Store.{Time, UserRow}

pub record TicketRow : Type 0 where
  pub id : String
  pub school_id : String
  pub requester_user_id : String
  pub opened_by_user_id : String
  pub assigned_to_user_id : Option String
  pub status : String

pub record AssignmentRow : Type 0 where
  pub ticket_id : String
  pub assigned_to : String
  pub assigned_by : String
  pub unassigned_at : Option Time

pub record MessageRow : Type 0 where
  pub id : String
  pub ticket_id : String
  pub author_user_id : String
  pub message : String
  pub internal : Bool

pub record AuditEvent : Type 0 where
  pub school_id : String
  pub user_id : String
  pub ticket_id : String
  pub assigned_to : String

pub record Db : Type 0 where
  pub users : List UserRow
  pub tickets : List TicketRow
  pub assignments : List AssignmentRow
  pub messages : List MessageRow
  pub audits : List AuditEvent

-- The ticket is of the school, and so is the assignee, who is active.
unfoldable pub is_assignable : String → String → String → Db → Bool
is_assignable school_id ticket_id assignee_id db =
    exists_where
      (λ (ticket : TicketRow).
        ticket.id == ticket_id
        && ticket.school_id == school_id
        && exists_where
            (λ (user : UserRow).
              user.school_id == ticket.school_id && user.id == assignee_id && user.active)
            db.users)
      db.tickets

abbrev pub is_open_assignment : String → AssignmentRow → Bool
is_open_assignment ticket_id row = row.ticket_id == ticket_id && not (is_some row.unassigned_at)

abbrev pub unassigned : Time → AssignmentRow → AssignmentRow
unassigned now row = record row { unassigned_at = some now }

abbrev pub assigned : String → TicketRow → TicketRow
assigned assignee_id ticket = record ticket {
  assigned_to_user_id = some assignee_id;
  status = "assigned";
}

unfoldable pub assign : Faults → Time → String → String → String → String → Action Db (Unit {0})
assign faults now school_id actor_id ticket_id assignee_id = transaction (faults 0) (faults 6) do
  valid ←
      or_fail (query (faults 1) (is_assignable school_id ticket_id assignee_id))
        (reason "ticket or assignee is outside this school")
  require valid (reason "ticket or assignee is outside this school")
  exec (faults 2) (λ db. record db {
    assignments = update_where (is_open_assignment ticket_id) (unassigned now) db.assignments;
  })
  exec (faults 3) (λ db. record db {
    assignments =
        insert
          (record {
            ticket_id = ticket_id;
            assigned_to = assignee_id;
            assigned_by = actor_id;
            unassigned_at = none;
          })
          db.assignments;
  })
  exec (faults 4) (λ db. record db {
    tickets =
        update_where (λ (ticket : TicketRow). ticket.id == ticket_id) (assigned assignee_id)
          db.tickets;
  })
  exec (faults 5) (λ db. record db {
    audits =
        insert
          (record {
            school_id = school_id;
            user_id = actor_id;
            ticket_id = ticket_id;
            assigned_to = assignee_id;
          })
          db.audits;
  })

abbrev pub is_some_of : String → Option String → Bool
is_some_of id none = false
is_some_of id (some other) = other == id

-- Whether the actor may write on the ticket: the staff of the school, or one whom it concerns.
unfoldable pub may_write : String → String → String → Bool → Db → Bool
may_write school_id actor_id ticket_id staff db =
    exists_where
      (λ (ticket : TicketRow).
        ticket.id == ticket_id
        && ticket.school_id == school_id
        && (staff
            || ticket.requester_user_id == actor_id
            || ticket.opened_by_user_id == actor_id
            || is_some_of actor_id ticket.assigned_to_user_id))
      db.tickets

-- `id` is the identifier that is generated.
unfoldable pub add_message :
    Faults → String → String → String → String → String → Bool → Bool → Action Db String
add_message faults id school_id actor_id ticket_id message internal staff = do
  fail_if (ltb (len (trim_space message)) 1 || ltb 10000 (len message))
      (reason "message must contain 1 to 10000 characters")
  fail_if (internal && not staff) (reason "internal messages require support staff permission")
  allowed ←
      or_fail (query (faults 0) (may_write school_id actor_id ticket_id staff))
        (reason "ticket is outside the actor scope")
  require allowed (reason "ticket is outside the actor scope")
  exec (faults 1) (λ db. record db {
    messages =
        insert
          (record {
            id = id;
            ticket_id = ticket_id;
            author_user_id = actor_id;
            message = trim_space message;
            internal = internal;
          })
          db.messages;
  })
  pure id
