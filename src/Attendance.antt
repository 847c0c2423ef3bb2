-- ===== src/Attendance.antt =====
-- backend/internal/attendance/service.go: what share of a lesson a student was present.
pub mod Laws
mod Tests
use fluenthub.Prelude.{ℕ, Bool, if◌then◌else◌, leb}
use fluenthub.Prelude.Int.{ℤ, pos, pos_part, leb_ℤ, ltb_ℤ, mul64, quot}

pub data Status : Type 0 where
  present partial absent : Status

-- The first branch that applies, as the returns of `Classify` do.
abbrev pub classify_share : ℤ → ℤ → Status
classify_share share minimum =
    if leb_ℤ minimum share
    then present
    else if leb_ℤ (quot minimum 2) share
    then partial
    else absent

abbrev pub at_most : ℤ → ℤ → ℤ
at_most limit n = if ltb_ℤ limit n then limit else n

-- `presentSeconds * 10000 / durationSeconds`, at most 10000
unfoldable pub share_of : ℤ → ℤ → ℤ
share_of present_seconds duration_seconds =
    at_most (pos 10000) (quot (mul64 present_seconds (pos 10000)) (pos_part duration_seconds))

unfoldable pub classify : ℤ → ℤ → ℤ → ℤ × Status
unfolding share_of
classify present_seconds duration_seconds minimum = (
  if leb_ℤ duration_seconds (pos 0) then pos 0 else share_of present_seconds duration_seconds,
  if leb_ℤ duration_seconds (pos 0)
      then absent
      else classify_share (share_of present_seconds duration_seconds) minimum,
)
