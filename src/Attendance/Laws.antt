-- ===== src/Attendance/Laws.antt =====
-- More presence never counts as less.
use native.Mathlib.Nat.{le_trans, le-div_iff_mul-le, div-mul-le_self}
use fluenthub.Prelude.{ℕ, ◌*◌, ◌/◌, ◌^◌, ◌≤◌, ◌<◌, ◌≡◌, false, arith}
use fluenthub.Prelude.Int.{ℤ, pos, ◌≤ℤ◌, leb_ℤ, quot, mul64-pos}
use fluenthub.Attendance.{Status, present, partial, absent, classify_share, share_of, classify}

abbrev pub rank : Status → ℕ
rank present = 2
rank partial = 1
rank absent = 0

classify_share_mono :
    (a b minimum : ℤ) → a ≤ℤ b → rank (classify_share a minimum) ≤ rank (classify_share b minimum)
classify_share_mono a b minimum h = ground arith

div_mono : (a b d : ℕ) → 0 < d → a ≤ b → a / d ≤ b / d
div_mono a b d h le = (le-div_iff_mul-le h).1 (le_trans (div-mul-le_self a d) le)

share_of_le :
    (p q d : ℕ)
    → 0 < d
    → p ≤ q
    → q * 10000 < 2 ^ 63
    → (share_of (pos p) (pos d) ≤ℤ share_of (pos q) (pos d))
      × (share_of (pos q) (pos d) ≤ℤ pos 10000)
unfolding share_of quot
share_of_le p q d h le small =
    rw (mul64-pos p 10000 (omega arith), mul64-pos q 10000 small)
      (ground (arith, div_mono (p * 10000) (q * 10000) d h (omega arith)))

-- In a lesson of some length a student who is present for longer gets no smaller share, at most 10000 basis
-- points, and no worse status, as long as the seconds times 10000 fit an int64.
pub classify_mono :
    (p q d : ℕ) (minimum : ℤ)
    → 0 < d
    → p ≤ q
    → q * 10000 < 2 ^ 63
    → let (share, status) = classify (pos p) (pos d) minimum in
      let (share', status') = classify (pos q) (pos d) minimum in
      (share ≤ℤ share') × (share' ≤ℤ pos 10000) × (rank status ≤ rank status')
unfolding classify
classify_mono p q d minimum h le small =
    let (more, most) = share_of_le p q d h le small in
    let better =
      classify_share_mono (share_of (pos p) (pos d)) (share_of (pos q) (pos d)) minimum more in
    let long : leb_ℤ (pos d) (pos 0) ≡ false = ground arith in rw long (more, most, better)
