-- ===== src/Assessment.antt =====
-- backend/internal/assessment: attempts at exercises and exams, their answers and their grades.
pub mod Store
pub mod Start
pub mod Answers
pub mod Submit
pub mod Grade
mod Tests
