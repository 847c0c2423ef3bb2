-- ===== src/Academic/Laws.antt =====
-- The final score is a rounded mean of the two averages.
use fluenthub.Prelude.{
  ◌∙◌, ap, ℕ, ◌+◌, ◌*◌, ◌/◌, ◌^◌, ◌≤◌, ◌<◌, ◌≡◌, refl, ◌⊎◌, inl, inr, Bool, true, ◌||◌, not, arith,
}
use native.Mathlib.Nat.{mul-le-mul_left, mul-le-mul_right}
use fluenthub.Prelude.Int.{ℤ, pos, ◌≤ℤ◌, ltb_ℤ, add64, quot, mul64-pos, add64-pos}
use fluenthub.Prelude.Action.{ok}
use fluenthub.Academic.{Policy, Result, final_score, outcome, calculate}

-- The mean of two numbers by weights, rounded to the nearest.
unfoldable mean : ℕ → ℕ → ℕ → ℕ → ℕ
mean e x we wx = (e * we + x * wx + 5000) / 10000

mean_bounds :
    (e x we wx : ℕ) → e ≤ x → we + wx ≡ 10000 → (e ≤ mean e x we wx) × (mean e x we wx ≤ x)
unfolding mean
mean_bounds e x we wx le h =
    let low : e * (we + wx) ≡ e * 10000 = ap (λ w. e * w) h in
    let high : x * (we + wx) ≡ x * 10000 = ap (λ w. x * w) h in
    let left = mul-le-mul_right wx le in
    let right = mul-le-mul_right we le in (omega (arith, low, left), omega (arith, high, right))

mean_rounds :
    (e x we wx : ℕ)
    → (10000 * mean e x we wx ≤ e * we + x * wx + 5000)
      × (e * we + x * wx + 5000 < 10000 * mean e x we wx + 10000)
unfolding mean
mean_rounds e x we wx = (omega arith, omega arith)

mean_comm : (e x we wx : ℕ) → mean e x we wx ≡ mean x e wx we
unfolding mean
mean_comm e x we wx = ap (λ n. (n + 5000) / 10000) (omega arith)

le-cases : (a b : ℕ) → (a ≤ b) ⊎ (b ≤ a)
le-cases a b = ground arith

mean-between :
    (e x we wx : ℕ)
    → we + wx ≡ 10000
    → ((e ≤ mean e x we wx) × (mean e x we wx ≤ x)) ⊎ ((x ≤ mean e x we wx) × (mean e x we wx ≤ e))
mean-between e x we wx h = elim (le-cases e x) [
  | inl le ↦ inl (mean_bounds e x we wx le h)
  | inr ge ↦ inr (rw (mean_comm e x we wx) (mean_bounds x e wx we ge (omega (arith, h))))
]

outcome-cases :
    (policy : Policy) (f attendance : ℤ) (complete : Bool)
    → ((outcome policy f attendance complete ≡ "approved")
        × (policy.minimum_passing_score ≤ℤ f)
        × (policy.minimum_attendance ≤ℤ attendance)
        × (complete ≡ true))
      ⊎ ((outcome policy f attendance complete ≡ "failed")
          × ((ltb_ℤ f policy.minimum_passing_score
                || ltb_ℤ attendance policy.minimum_attendance
                || not complete)
              ≡ true))
unfolding outcome
outcome-cases policy f attendance complete = ground arith

-- Below 2^31 nothing overflows: the final score is that mean.
final_score-mean :
    (policy : Policy) (e x we wx : ℕ)
    → e < 2 ^ 31
    → x < 2 ^ 31
    → policy.exercise_weight ≡ pos we
    → policy.exam_weight ≡ pos wx
    → we + wx ≡ 10000
    → final_score policy (pos e) (pos x) ≡ pos (mean e x we wx)
unfolding final_score mean quot
final_score-mean policy e x we wx small_e small_x h k sum =
    let left : e * we ≤ e * 10000 = mul-le-mul_left e (omega (arith, sum)) in
    let right : x * wx ≤ x * 10000 = mul-le-mul_left x (omega (arith, sum)) in
    rw
      (
        h,
        k,
        mul64-pos e we (omega arith),
        mul64-pos x wx (omega arith),
        add64-pos (e * we) (x * wx) (omega arith),
        add64-pos (e * we + x * wx) 5000 (omega arith),
      )
      refl

-- For averages below 2^31 and weights that are not negative: the weights must sum to 10000, the final score
-- lies between the two averages, and is their weighted mean rounded to the nearest; the result is
-- "approved" exactly if the score and the attendance reach their minima and the mandatory work is complete.
pub calculate_lem :
    (policy : Policy) (e x we wx : ℕ) (attendance : ℤ) (complete : Bool) (r : Result)
    → e < 2 ^ 31
    → x < 2 ^ 31
    → policy.exercise_weight ≡ pos we
    → policy.exam_weight ≡ pos wx
    → we + wx < 2 ^ 63
    → calculate policy (pos e) (pos x) attendance complete ≡ ok r
    → (we + wx ≡ 10000)
      × ((f : ℕ) × (r.final_score ≡ pos f)
          × (((e ≤ f) × (f ≤ x)) ⊎ ((x ≤ f) × (f ≤ e)))
          × (10000 * f ≤ e * we + x * wx + 5000)
          × (e * we + x * wx + 5000 < 10000 * f + 10000)
          × (((r.result ≡ "approved")
                × (policy.minimum_passing_score ≤ℤ pos f)
                × (policy.minimum_attendance ≤ℤ attendance)
                × (complete ≡ true))
              ⊎ ((r.result ≡ "failed")
                  × ((ltb_ℤ (pos f) policy.minimum_passing_score
                        || ltb_ℤ attendance policy.minimum_attendance
                        || not complete)
                      ≡ true))))
unfolding calculate
calculate_lem policy e x we wx attendance complete r small_e small_x h k small done =
    let summed : add64 policy.exercise_weight policy.exam_weight ≡ pos (we + wx) =
      rw (h, k) (add64-pos we wx small) in
    let sum : we + wx ≡ 10000 = ground (arith, summed) in
    let final = final_score-mean policy e x we wx small_e small_x h k sum in
    let graded : r ≡ record {
      exercise_average = pos e;
      exam_average = pos x;
      attendance = attendance;
      final_score = final_score policy (pos e) (pos x);
      result = outcome policy (final_score policy (pos e) (pos x)) attendance complete;
    } =
      ground (arith, summed) in
    let scored : r.final_score ≡ pos (mean e x we wx) = ap (λ q. q.final_score) graded ∙ final in
    let decided : r.result ≡ outcome policy (pos (mean e x we wx)) attendance complete =
      ap (λ q. q.result) graded ∙ ap (λ s. outcome policy s attendance complete) final in
    (
      sum,
      (
        mean e x we wx,
        scored,
        mean-between e x we wx sum,
        (mean_rounds e x we wx).0,
        (mean_rounds e x we wx).1,
        rw decided (outcome-cases policy (pos (mean e x we wx)) attendance complete),
      ),
    )
