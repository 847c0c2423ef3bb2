-- ===== src/Setup/Validate.antt =====
-- The input of the set-up and its validation.
use Prim.Native.Char.{Char, code}
use fluenthub.Prelude.{
  ℕ, String, Bool, true, false, ◌&&◌, ◌||◌, not, Option, ◌==◌, ltb, leb, eqb, if◌then◌else◌,
  is_some,
}
use fluenthub.Prelude.Text.{len, trim_space}
use fluenthub.Prelude.Int.{ℤ, pos, add64, ltb_ℤ, eqb_ℤ}
use fluenthub.Prelude.Action.{Result, ok, err, reason}

pub record Input : Type 0 where
  pub legal_name : String
  pub display_name : String
  pub slug : String
  pub email : String
  pub phone : String
  pub website : String
  pub timezone : String
  pub locale : String
  pub system_title : String
  pub primary_color : String
  pub secondary_color : String
  pub accent_color : String
  pub welcome_text : String
  pub administrator_name : String
  pub administrator_email : String
  pub administrator_password : String
  pub unit_name : String
  pub unit_code : String
  pub minimum_passing_score : ℤ
  pub exercise_weight : ℤ
  pub exam_weight : ℤ
  pub minimum_attendance : ℤ

abbrev is_between : ℕ → ℕ → Char → Bool
is_between low high c = leb low (code c) && leb (code c) high

unfoldable pub all_chars : (Char → Bool) → String → Bool
all_chars p String.[] = true
all_chars p (String.◌∷◌ c s) = p c && all_chars p s

abbrev pub is_slug_char : Char → Bool
is_slug_char c = is_between 97 122 c || is_between 48 57 c || eqb (code c) 45

unfoldable pub valid_slug : String → Bool
valid_slug value = not (ltb (len value) 2 || ltb 80 (len value)) && all_chars is_slug_char value

abbrev pub is_hex_char : Char → Bool
is_hex_char c = is_between 48 57 c || is_between 97 102 c || is_between 65 70 c

unfoldable pub valid_hex_color : String → Bool
valid_hex_color String.[] = false
valid_hex_color (String.◌∷◌ c s) =
    eqb (len (String.◌∷◌ c s)) 7 && eqb (code c) 35 && all_chars is_hex_char s

-- `parse_address` is mail.ParseAddress, with the address that it finds.
unfoldable pub validate : (String → Option String) → Input → Result (Unit {0})
validate parse_address input =
    if ltb (len (trim_space input.legal_name)) 2
      || ltb (len (trim_space input.display_name)) 2
      || not (valid_slug input.slug)
      || input.timezone == ""
      || input.locale == ""
    then err (reason "school identity, timezone and locale are required")
    else if not (is_some (parse_address input.email))
    then err (reason "invalid school email")
    else if not (is_some (parse_address input.administrator_email))
    then err (reason "invalid administrator email")
    else if ltb (len (trim_space input.administrator_name)) 2
        || ltb (len (trim_space input.unit_name)) 2
        || input.unit_code == ""
    then err (reason "administrator and first unit are required")
    else if not (eqb_ℤ (add64 input.exercise_weight input.exam_weight) (pos 10000))
    then err (reason "assessment weights must total 10000 basis points")
    else if ltb_ℤ input.minimum_passing_score (pos 0)
        || ltb_ℤ (pos 10000) input.minimum_passing_score
        || ltb_ℤ input.minimum_attendance (pos 0)
        || ltb_ℤ (pos 10000) input.minimum_attendance
    then err (reason "invalid academic policy")
    else if trim_space input.system_title == ""
        || not (valid_hex_color input.primary_color)
        || not (valid_hex_color input.secondary_color)
        || not (valid_hex_color input.accent_color)
    then err (reason "system title and valid branding colors are required")
    else ok tt
