-- ===== src/Records/Rows.antt =====
-- The rows that a transition may change, and what an UPDATE of a single one of them does.
use fluenthub.Prelude.{
  String, ◌≡◌, ◌⊎◌, ◌↔◌, inl, inr, refl, sym, subst, ap, Bool, true, false, not, ◌==◌, Option, none,
  some, List, ◌∷◌, [], ◌++◌, eq_iff, count_where, update_where, arith, All, Bool-cases,
}
use fluenthub.Records.{Row, is_owned, is_owner, is_target}
use fluenthub.Records.Statuses.{Admits}

-- A row that an actor may change: the row of the school with that id, which the actor owns where the resource
-- has owners and the actor is not unrestricted.
abbrev pub IsTarget : String → String → String → String → Bool → Row → Type 0
IsTarget school_id actor_id resource id unrestricted row =
    (row.id ≡ id)
    × (row.school_id ≡ school_id)
    × ((unrestricted ≡ true) ⊎ (resource ≡ "classes") ⊎ (row.owner ≡ some actor_id))

-- Of the rows, `row` alone has a property.
abbrev pub IsSole : (Row → Type 0) → List Row → List Row → Row → List Row → Type 0
IsSole P rows before row after =
    (rows ≡ before ++ row ∷ after) × P row × All (λ r. ¬ P r) before × All (λ r. ¬ P r) after

pub is_owned-Admits :
    (resource status table : String)
    → Admits resource status table
    → is_owned resource ≡ not (resource == "classes")
unfolding is_owned
is_owned-Admits resource status table (inl (r, t, s)) =
    subst (λ x. is_owned x ≡ not (x == "classes")) (sym r) refl
is_owned-Admits resource status table (inr (inl (r, t, s))) =
    subst (λ x. is_owned x ≡ not (x == "classes")) (sym r) refl
is_owned-Admits resource status table (inr (inr (inl (r, t, s)))) =
    subst (λ x. is_owned x ≡ not (x == "classes")) (sym r) refl
is_owned-Admits resource status table (inr (inr (inr (r, t, s)))) =
    subst (λ x. is_owned x ≡ not (x == "classes")) (sym r) refl

is_owner-some :
    (actor_id : String) (owner : Option String)
    → (is_owner actor_id owner ≡ true) ↔ (owner ≡ some actor_id)
is_owner-some actor_id none = (λ h. cc, λ h. cc)
is_owner-some actor_id (some owner) =
    (λ h. ground (arith, eq_iff owner actor_id), λ h. ground (arith, eq_iff owner actor_id))

module _ (school_id actor_id resource id : String) (unrestricted : Bool)
    (owned : is_owned resource ≡ not (resource == "classes")) where
  pub is_target-IsTarget :
      (row : Row)
      → (is_target school_id actor_id resource id unrestricted row ≡ true)
        ↔ IsTarget school_id actor_id resource id unrestricted row
  unfolding is_target
  is_target-IsTarget row = (
    λ h. ground (
      arith,
      owned,
      eq_iff row.id id,
      eq_iff row.school_id school_id,
      eq_iff resource "classes",
      is_owner-some actor_id row.owner,
    ),
    λ h. ground (
      arith,
      owned,
      eq_iff row.id id,
      eq_iff row.school_id school_id,
      eq_iff resource "classes",
      is_owner-some actor_id row.owner,
    ),
  )

module _ (p : Row → Bool) (f : Row → Row) where
  untouched :
      (rows : List Row)
      → count_where p rows ≡ 0
      → All (λ r. p r ≡ false) rows × (update_where p f rows ≡ rows)
  unfolding count_where update_where
  untouched [] h = (tt, refl)
  untouched (r ∷ rows) h = elim (Bool-cases (p r)) [
    | inl hit ↦ ground arith
    | inr miss ↦
        let (rest, same) = untouched rows (ground arith) in
        ((miss, rest), rw miss (ap (λ rs. r ∷ rs) same))
  ]

  -- A row that alone is selected is the only one that an UPDATE changes.
  pub one_updated :
      (rows : List Row)
      → count_where p rows ≡ 1
      → (before : List Row) × (row : Row) × (after : List Row) × (rows ≡ before ++ row ∷ after)
        × (p row ≡ true)
        × All (λ r. p r ≡ false) before
        × All (λ r. p r ≡ false) after
        × (update_where p f rows ≡ before ++ f row ∷ after)
  unfolding count_where update_where
  one_updated [] h = cc
  one_updated (r ∷ rows) h = elim (Bool-cases (p r)) [
    | inl hit ↦
        let (others, same) = untouched rows (ground arith) in
        ([], r, rows, refl, hit, tt, others, rw hit (ap (λ rs. f r ∷ rs) same))
    | inr miss ↦
        let (before, row, after, split, hit, first, last, updated) =
          one_updated rows (ground arith) in
        (
          r ∷ before,
          row,
          after,
          ap (λ rs. r ∷ rs) split,
          hit,
          (miss, first),
          last,
          rw miss (ap (λ rs. r ∷ rs) updated),
        )
  ]

  count_where-none : (rows : List Row) → All (λ r. p r ≡ false) rows → count_where p rows ≡ 0
  unfolding count_where
  count_where-none [] h = refl
  count_where-none (r ∷ rows) (miss, rest) = ground (arith, count_where-none rows rest)

  pub count_where-one :
      (before : List Row) (row : Row) (after : List Row)
      → p row ≡ true
      → All (λ r. p r ≡ false) before
      → All (λ r. p r ≡ false) after
      → count_where p (before ++ row ∷ after) ≡ 1
  unfolding count_where
  count_where-one [] row after hit first last = ground (arith, count_where-none after last)
  count_where-one (r ∷ before) row after hit (miss, first) last =
      ground (arith, count_where-one before row after hit first last)
