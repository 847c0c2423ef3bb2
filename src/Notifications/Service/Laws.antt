-- ===== src/Notifications/Service/Laws.antt =====
-- What is sent is unread until its reader marks it.
use fluenthub.Prelude.{
  ◌≡◌, refl, inl, inr, String, Bool, List, [], ◌∷◌, arith, count_where, update_where, Option-cases,
}
use fluenthub.Prelude.Action.{ok, Faults}
use fluenthub.Users.Store.{Time}
use fluenthub.Notifications.Service.{
  Db, NotificationRow, is_unread, is_target, read_by, mark_read, mark_all_read,
}

-- Marking read keeps the first time.
read_by_idem :
    (now later : Time) (row : NotificationRow) → read_by later (read_by now row) ≡ read_by now row
read_by_idem now later row = elim (Option-cases row.read_at) [
  | inl unread ↦ ground (arith, unread)
  | inr (t, at) ↦ ground (arith, at)
]

update-read :
    (now later : Time) (p : NotificationRow → Bool) (rows : List NotificationRow)
    → ((row : NotificationRow) → p (read_by now row) ≡ p row)
    → update_where p (read_by later) (update_where p (read_by now) rows)
      ≡ update_where p (read_by now) rows
unfolding update_where
update-read now later p [] keeps = refl
update-read now later p (row ∷ rows) keeps =
    ground (arith, keeps row, read_by_idem now later row, update-read now later p rows keeps)

none_unread :
    (now : Time) (school_id user_id : String) (rows : List NotificationRow)
    → count_where
        (is_unread school_id user_id)
        (update_where (is_unread school_id user_id) (read_by now) rows)
      ≡ 0
unfolding count_where update_where
none_unread now school_id user_id [] = refl
none_unread now school_id user_id (row ∷ rows) =
    ground (arith, none_unread now school_id user_id rows)

-- Marking a notification read a second time, at whatever time, changes nothing: the first time stays.
pub mark_read_idem :
    (faults again : Faults) (now later : Time) (school_id user_id id : String) (db : Db)
    → (mark_read faults now school_id user_id id db).0 ≡ ok tt
    → let db' = (mark_read faults now school_id user_id id db).1 in
      (mark_read again later school_id user_id id db').1 ≡ db'
unfolding mark_read
mark_read_idem faults again now later school_id user_id id db done =
    ground
      (arith, update-read now later (is_target school_id user_id id) db.notifications (λ row. refl))

-- After MarkAllRead succeeds the user has no unread notification in the school.
pub mark_all_read_lem :
    (faults : Faults) (now : Time) (school_id user_id : String) (db : Db)
    → (mark_all_read faults now school_id user_id db).0 ≡ ok tt
    → count_where
        (is_unread school_id user_id)
        (mark_all_read faults now school_id user_id db).1.notifications
      ≡ 0
unfolding mark_all_read
mark_all_read_lem faults now school_id user_id db done =
    ground (arith, none_unread now school_id user_id db.notifications)
