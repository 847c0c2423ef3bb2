-- ===== src/Setup/Store.antt =====
-- The tables that the set-up fills.
use fluenthub.Prelude.{String, Option, List}
use fluenthub.Prelude.Int.{ℤ}
use fluenthub.Users.Store.{Time}
use fluenthub.Users.Store

pub record SchoolRow : Type 0 where
  pub id : String
  pub legal_name : String
  pub display_name : String
  pub slug : String
  pub email : String
  pub phone : String
  pub website : String
  pub timezone : String
  pub locale : String

pub record BrandingRow : Type 0 where
  pub school_id : String
  pub system_title : String
  pub school_display_name : String
  pub primary_color : String
  pub secondary_color : String
  pub accent_color : String
  pub welcome_text : String
  pub updated_by : String

pub record UnitRow : Type 0 where
  pub id : String
  pub school_id : String
  pub name : String
  pub code : String
  pub timezone : String

pub record PolicyRow : Type 0 where
  pub school_id : String
  pub minimum_passing_score : ℤ
  pub exercise_weight : ℤ
  pub exam_weight : ℤ
  pub minimum_attendance : ℤ
  pub updated_by : String

pub record AttendancePolicyRow : Type 0 where
  pub school_id : String
  pub minimum_live_attendance : ℤ
  pub updated_by : String

pub record SkillRow : Type 0 where
  pub school_id : String
  pub code : String
  pub name : String

-- `accounts` are the tables of the users, `permissions` the codes of the table of permissions.
pub record Db : Type 0 where
  pub accounts : Store.Db
  pub schools : List SchoolRow
  pub brandings : List BrandingRow
  pub units : List UnitRow
  pub policies : List PolicyRow
  pub attendance_policies : List AttendancePolicyRow
  pub permissions : List String
  pub skills : List SkillRow
  pub finished : Option Time
