-- ===== src/Records/Tests.antt =====
-- A run of a transition on concrete data.
use fluenthub.Prelude.{
  String, List, ◌++◌, ◌≡◌, refl, ◌⊎◌, true, false, ◌==◌, [], ◌∷◌, some, count_where, insert,
  if◌then◌else◌,
}
use fluenthub.Prelude.Action.{ok, is_ok, no_faults}
use fluenthub.Records.Statuses.{Admits}
use fluenthub.Records.Rows.{IsTarget, IsSole}
use fluenthub.Records.{Row, Db, allowed, table_of, is_target, transition}
use fluenthub.Records.Laws.{transition_lem}

abbrev row : Row
row = record { id = "exam-1"; school_id = "school-1"; owner = some "teacher-1"; status = "draft" }

abbrev db : Db
db = record { tables = λ name. if name == "exams" then row ∷ [] else []; audits = [] }

opened_test :
    (transition no_faults "school-1" "teacher-1" "exams" "exam-1" "open" false db).0 ≡ ok tt
unfolding transition allowed count_where table_of is_target
opened_test = refl

transition_lem_example :
    let (r, db') = transition no_faults "school-1" "teacher-1" "exams" "exam-1" "open" false db in
    let target = IsTarget "school-1" "teacher-1" "exams" "exam-1" false in
    ((r ≡ ok tt)
      × ((table : String) × (before : List Row) × (row : Row) × (after : List Row) × Admits "exams"
            "open" table
          × IsSole target (db.tables table) before row after
          × (db'.tables table
              ≡ before
                ++ record {
                  id = row.id;
                  school_id = row.school_id;
                  owner = row.owner;
                  status = "open";
                }
                  ∷ after)
          × (("lessons" ≡ table) ⊎ (db'.tables "lessons" ≡ db.tables "lessons")))
      × (db'.audits
          ≡ record {
            school_id = "school-1";
            user_id = "teacher-1";
            action = "exams.status_changed";
            resource = "exams";
            resource_id = "exam-1";
            status = "open";
          }
            ∷ []))
    ⊎ ((is_ok r ≡ false)
        × (db' ≡ db)
        × ((false ≡ true)
            ⊎ ¬ (
                (table : String) × (before : List Row) × (row : Row) × (after : List Row) × Admits
                  "exams" "open" table
                × IsSole target (db.tables table) before row after)))
unfolding insert
transition_lem_example =
    transition_lem no_faults "school-1" "teacher-1" "exams" "exam-1" "open" false "lessons" db
