-- ===== src/Attendance/Tests.antt =====
-- A run of the classification on concrete data.
use fluenthub.Prelude.{◌≤◌, arith}
use fluenthub.Prelude.Int.{pos, ◌≤ℤ◌}
use fluenthub.Attendance.{classify}
use fluenthub.Attendance.Laws.{rank, classify_mono}

classify_mono_example :
    let (share, status) = classify (pos 1500) (pos 3600) (pos 7500) in
    let (share', status') = classify (pos 3000) (pos 3600) (pos 7500) in
    (share ≤ℤ share') × (share' ≤ℤ pos 10000) × (rank status ≤ rank status')
classify_mono_example =
    classify_mono 1500 3000 3600 (pos 7500) (omega arith) (omega arith) (omega arith)
