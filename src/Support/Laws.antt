-- ===== src/Support/Laws.antt =====
-- One open assignment for a ticket, and who may write on it.
use fluenthub.Prelude.{
  ◌≤◌, ◌≡◌, refl, ap, ◌⊎◌, inl, inr, String, Bool, true, false, none, some, List, [], ◌∷◌, ◌==◌,
  eq_iff, eq_refl, arith, count_where, find_where, update_where, insert, Bool-cases,
}
use fluenthub.Prelude.Text.{len, trim_space}
use fluenthub.Prelude.Action.{ok, is_ok, Faults}
use fluenthub.Users.Store.{Time}
use fluenthub.Support.{
  Db, TicketRow, AssignmentRow, is_assignable, is_open_assignment, unassigned, assigned, assign,
  may_write, add_message,
}

-- After the open assignments are closed, a new one is the only one.
count-reassigned :
    (now : Time) (ticket_id : String) (new : AssignmentRow) (rows : List AssignmentRow)
    → is_open_assignment ticket_id new ≡ true
    → let rows' = insert new (update_where (is_open_assignment ticket_id) (unassigned now) rows) in
      (count_where (is_open_assignment ticket_id) rows' ≡ 1)
      × (find_where (is_open_assignment ticket_id) rows' ≡ some new)
unfolding count_where find_where update_where insert
count-reassigned now ticket_id new [] is_open = ground (arith, is_open)
count-reassigned now ticket_id new (row ∷ rows) is_open =
    ground (arith, count-reassigned now ticket_id new rows is_open)

-- The assignments of other tickets stay.
count-other :
    (now : Time) (ticket_id other : String) (new : AssignmentRow) (rows : List AssignmentRow)
    → ticket_id == other ≡ false
    → new.ticket_id ≡ ticket_id
    → count_where
        (is_open_assignment other)
        (insert new (update_where (is_open_assignment ticket_id) (unassigned now) rows))
      ≡ count_where (is_open_assignment other) rows
unfolding count_where update_where insert
count-other now ticket_id other new [] apart is_new = rw is_new (ground (arith, apart))
count-other now ticket_id other new (row ∷ rows) apart is_new =
    let step = count-other now ticket_id other new rows apart is_new in
    elim (Bool-cases (row.ticket_id == ticket_id)) [
      | inl same ↦
          let equal = ap (λ t. t == other) ((eq_iff row.ticket_id ticket_id).0 same) in
          ground (arith, step, equal)
      | inr differs ↦ ground (arith, step)
    ]

-- An assignment that succeeds is of a ticket of the school to an active user of the school; the ticket then has
-- exactly one open assignment, to that user, every other ticket has as many as before, and one audit event is
-- added. An assignment that fails changes nothing.
pub assign_lem :
    (faults : Faults) (now : Time) (school_id actor_id ticket_id assignee_id other : String)
    (db : Db)
    → ticket_id == other ≡ false
    → let (r, db') = assign faults now school_id actor_id ticket_id assignee_id db in
      ((r ≡ ok tt)
        × (is_assignable school_id ticket_id assignee_id db ≡ true)
        × (count_where (is_open_assignment ticket_id) db'.assignments ≡ 1)
        × (find_where (is_open_assignment ticket_id) db'.assignments
            ≡ some (record {
              ticket_id = ticket_id;
              assigned_to = assignee_id;
              assigned_by = actor_id;
              unassigned_at = none;
            }))
        × (count_where (is_open_assignment other) db'.assignments
            ≡ count_where (is_open_assignment other) db.assignments)
        × (db'.tickets
            ≡ update_where
                (λ (ticket : TicketRow). ticket.id == ticket_id)
                (assigned assignee_id)
                db.tickets)
        × (db'.audits
            ≡ insert
                (record {
                  school_id = school_id;
                  user_id = actor_id;
                  ticket_id = ticket_id;
                  assigned_to = assignee_id;
                })
                db.audits))
      ⊎ ((is_ok r ≡ false) × (db' ≡ db))
unfolding assign
assign_lem faults now school_id actor_id ticket_id assignee_id other db apart =
    let new : AssignmentRow = record {
      ticket_id = ticket_id;
      assigned_to = assignee_id;
      assigned_by = actor_id;
      unassigned_at = none;
    } in
    let (one, found) =
      count-reassigned now ticket_id new db.assignments (ground (arith, eq_refl ticket_id)) in
    let others = count-other now ticket_id other new db.assignments apart refl in
    ground (arith, one, found, others)

-- A message is added only by the staff of the school or by a person whom the ticket concerns, only by the staff if it
-- is internal, and only if it is neither blank nor above 10000 bytes; it is stored without the blanks around it.
-- Else nothing changes.
pub add_message_lem :
    (faults : Faults) (id school_id actor_id ticket_id message : String) (internal staff : Bool)
    (db : Db)
    → let (r, db') = add_message faults id school_id actor_id ticket_id message internal staff db in
      ((r ≡ ok id)
        × (may_write school_id actor_id ticket_id staff db ≡ true)
        × ((internal ≡ false) ⊎ (staff ≡ true))
        × (1 ≤ len (trim_space message))
        × (len message ≤ 10000)
        × (db' ≡ record db {
          messages =
              insert
                (record {
                  id = id;
                  ticket_id = ticket_id;
                  author_user_id = actor_id;
                  message = trim_space message;
                  internal = internal;
                })
                db.messages;
        }))
      ⊎ ((is_ok r ≡ false) × (db' ≡ db))
unfolding add_message
add_message_lem faults id school_id actor_id ticket_id message internal staff db = ground arith
