-- ===== src/Support/Tests.antt =====
-- A ticket that is assigned again.
use fluenthub.Prelude.{
  ◌≡◌, ◌⊎◌, refl, String, true, false, none, some, [], ◌∷◌, ◌==◌, count_where, find_where,
  update_where, insert,
}
use fluenthub.Prelude.Action.{ok, is_ok, no_faults}
use fluenthub.Users.Tests.Data.{ann, bob}
use fluenthub.Support.{
  Db, TicketRow, AssignmentRow, is_assignable, is_open_assignment, assigned, assign, add_message,
}
use fluenthub.Support.Laws.{assign_lem}

abbrev ticket : TicketRow
ticket = record {
  id = "ticket-1";
  school_id = "school-1";
  requester_user_id = "user-3";
  opened_by_user_id = "user-3";
  assigned_to_user_id = some "user-1";
  status = "assigned";
}

abbrev assignment : AssignmentRow
assignment = record {
  ticket_id = "ticket-1";
  assigned_to = "user-1";
  assigned_by = "user-1";
  unassigned_at = none;
}

abbrev db : Db
db = record {
  users = ann ∷ bob ∷ [];
  tickets = ticket ∷ [];
  assignments = assignment ∷ [];
  messages = [];
  audits = [];
}

assigned_test : (assign no_faults 20 "school-1" "user-1" "ticket-1" "user-2" db).0 ≡ ok tt
unfolding assign is_assignable fluenthub.Prelude.exists_where
assigned_test = refl

stranger_test :
    is_ok
      (add_message no_faults "message-1" "school-1" "user-9" "ticket-1" "Hello" false false db).0
    ≡ false
unfolding add_message fluenthub.Prelude.Text.trim_space fluenthub.Support.may_write
    fluenthub.Prelude.exists_where
stranger_test = refl

assign_lem_example :
    let (r, db') = assign no_faults 20 "school-1" "user-1" "ticket-1" "user-2" db in
    ((r ≡ ok tt)
      × (is_assignable "school-1" "ticket-1" "user-2" db ≡ true)
      × (count_where (is_open_assignment "ticket-1") db'.assignments ≡ 1)
      × (find_where (is_open_assignment "ticket-1") db'.assignments
          ≡ some (record {
            ticket_id = "ticket-1";
            assigned_to = "user-2";
            assigned_by = "user-1";
            unassigned_at = none;
          }))
      × (count_where (is_open_assignment "ticket-2") db'.assignments
          ≡ count_where (is_open_assignment "ticket-2") db.assignments)
      × (db'.tickets
          ≡ update_where (λ (t : TicketRow). t.id == "ticket-1") (assigned "user-2") db.tickets)
      × (db'.audits
          ≡ insert
              (record {
                school_id = "school-1";
                user_id = "user-1";
                ticket_id = "ticket-1";
                assigned_to = "user-2";
              })
              db.audits))
    ⊎ ((is_ok r ≡ false) × (db' ≡ db))
assign_lem_example =
    assign_lem no_faults 20 "school-1" "user-1" "ticket-1" "user-2" "ticket-2" db refl
