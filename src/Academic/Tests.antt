-- ===== src/Academic/Tests.antt =====
-- A run of the final result on concrete data.
use fluenthub.Prelude.{ℕ, ◌+◌, ◌*◌, ◌≤◌, ◌<◌, ◌≡◌, refl, ◌⊎◌, Bool, true, ◌||◌, not, arith}
use fluenthub.Prelude.Int.{pos, ◌≤ℤ◌, ltb_ℤ}
use fluenthub.Prelude.Action.{ok}
use fluenthub.Academic.{Policy, Result, calculate}
use fluenthub.Academic.Laws.{calculate_lem}

abbrev policy : Policy
policy = record {
  minimum_passing_score = pos 600;
  exercise_weight = pos 4000;
  exam_weight = pos 6000;
  minimum_attendance = pos 7500;
  require_all_mandatory_exams = true;
  require_all_mandatory_exercises = true;
}

abbrev result : Result
result = record {
  exercise_average = pos 905;
  exam_average = pos 700;
  attendance = pos 8000;
  final_score = pos 782;
  result = "approved";
}

calculated_test : calculate policy (pos 905) (pos 700) (pos 8000) true ≡ ok result
unfolding calculate fluenthub.Prelude.Int.add64 fluenthub.Prelude.Int.wrap64
    fluenthub.Prelude.Int.◌+ℤ◌ fluenthub.Prelude.Int.quot fluenthub.Prelude.Int.mul64
    fluenthub.Prelude.Int.◌*ℤ◌
calculated_test = refl

calculate_lem_example :
    (4000 + 6000 ≡ 10000)
    × ((f : ℕ) × (pos 782 ≡ pos f)
        × (((905 ≤ f) × (f ≤ 700)) ⊎ ((700 ≤ f) × (f ≤ 905)))
        × (10000 * f ≤ 905 * 4000 + 700 * 6000 + 5000)
        × (905 * 4000 + 700 * 6000 + 5000 < 10000 * f + 10000)
        × (((result.result ≡ "approved")
              × (pos 600 ≤ℤ pos f)
              × (pos 7500 ≤ℤ pos 8000)
              × (true ≡ true))
            ⊎ ((result.result ≡ "failed")
                × ((ltb_ℤ (pos f) (pos 600) || ltb_ℤ (pos 8000) (pos 7500) || not true) ≡ true))))
calculate_lem_example =
    calculate_lem policy 905 700 4000 6000 (pos 8000) true result (omega arith) (omega arith) refl
      refl (omega arith) calculated_test
