-- ===== src/Records/Statuses.antt =====
-- The statuses that the resources admit, as lists apart from the code's.
use fluenthub.Prelude.{
  String, ◌≡◌, ◌⊎◌, ◌↔◌, inl, inr, refl, subst, sym, ap, ◌∙◌, true, ◌==◌, eq_iff, arith, Bool-cases,
}
use fluenthub.Records.{allowed, table_of}

-- The statuses of the resources.
abbrev pub IsClassStatus : String → Type 0
IsClassStatus s =
    (s ≡ "planned")
    ⊎ (s ≡ "open")
    ⊎ (s ≡ "active")
    ⊎ (s ≡ "completed")
    ⊎ (s ≡ "cancelled")
    ⊎ (s ≡ "archived")

abbrev pub IsExerciseStatus : String → Type 0
IsExerciseStatus s = (s ≡ "draft") ⊎ (s ≡ "published") ⊎ (s ≡ "closed") ⊎ (s ≡ "archived")

abbrev pub IsExamStatus : String → Type 0
IsExamStatus s =
    (s ≡ "draft")
    ⊎ (s ≡ "scheduled")
    ⊎ (s ≡ "open")
    ⊎ (s ≡ "closed")
    ⊎ (s ≡ "grading")
    ⊎ (s ≡ "published")
    ⊎ (s ≡ "archived")

abbrev pub IsTicketStatus : String → Type 0
IsTicketStatus s =
    (s ≡ "open")
    ⊎ (s ≡ "assigned")
    ⊎ (s ≡ "in_progress")
    ⊎ (s ≡ "waiting_user")
    ⊎ (s ≡ "resolved")
    ⊎ (s ≡ "closed")

-- The statuses that a resource admits, and the table that it is kept in.
abbrev pub Admits : String → String → String → Type 0
Admits resource status table =
    ((resource ≡ "classes") × (table ≡ "class_groups") × IsClassStatus status)
    ⊎ ((resource ≡ "exercises") × (table ≡ "exercises") × IsExerciseStatus status)
    ⊎ ((resource ≡ "exams") × (table ≡ "exams") × IsExamStatus status)
    ⊎ ((resource ≡ "support") × (table ≡ "support_tickets") × IsTicketStatus status)

classes_allowed : (status : String) → (allowed "classes" status ≡ true) ↔ IsClassStatus status
unfolding allowed
classes_allowed status = (
  (λ h. ground (
    arith,
    eq_iff status "planned",
    eq_iff status "open",
    eq_iff status "active",
    eq_iff status "completed",
    eq_iff status "cancelled",
    eq_iff status "archived",
  )),
  (λ h. ground (
    arith,
    eq_iff status "planned",
    eq_iff status "open",
    eq_iff status "active",
    eq_iff status "completed",
    eq_iff status "cancelled",
    eq_iff status "archived",
  )),
)

exercises_allowed :
    (status : String) → (allowed "exercises" status ≡ true) ↔ IsExerciseStatus status
unfolding allowed
exercises_allowed status = (
  (λ h. ground (
    arith,
    eq_iff status "draft",
    eq_iff status "published",
    eq_iff status "closed",
    eq_iff status "archived",
  )),
  (λ h. ground (
    arith,
    eq_iff status "draft",
    eq_iff status "published",
    eq_iff status "closed",
    eq_iff status "archived",
  )),
)

exams_allowed : (status : String) → (allowed "exams" status ≡ true) ↔ IsExamStatus status
unfolding allowed
exams_allowed status = (
  (λ h. ground (
    arith,
    eq_iff status "draft",
    eq_iff status "scheduled",
    eq_iff status "open",
    eq_iff status "closed",
    eq_iff status "grading",
    eq_iff status "published",
    eq_iff status "archived",
  )),
  (λ h. ground (
    arith,
    eq_iff status "draft",
    eq_iff status "scheduled",
    eq_iff status "open",
    eq_iff status "closed",
    eq_iff status "grading",
    eq_iff status "published",
    eq_iff status "archived",
  )),
)

support_allowed : (status : String) → (allowed "support" status ≡ true) ↔ IsTicketStatus status
unfolding allowed
support_allowed status = (
  (λ h. ground (
    arith,
    eq_iff status "open",
    eq_iff status "assigned",
    eq_iff status "in_progress",
    eq_iff status "waiting_user",
    eq_iff status "resolved",
    eq_iff status "closed",
  )),
  (λ h. ground (
    arith,
    eq_iff status "open",
    eq_iff status "assigned",
    eq_iff status "in_progress",
    eq_iff status "waiting_user",
    eq_iff status "resolved",
    eq_iff status "closed",
  )),
)

pub eq_of : (s t : String) → (s == t) ≡ true → s ≡ t
eq_of s t h = ground (arith, eq_iff s t)

pub allowed-Admits :
    (resource status : String)
    → allowed resource status ≡ true
    → Admits resource status (table_of resource)
unfolding allowed table_of
allowed-Admits resource status h = elim (Bool-cases (resource == "classes")) [
  | inl e ↦
      subst (λ r. allowed r status ≡ true → Admits r status (table_of r))
        (sym (eq_of resource "classes" e)) (λ h. inl (refl, refl, (classes_allowed status).0 h)) h
  | inr c ↦ elim (Bool-cases (resource == "exercises")) [
    | inl e ↦
        subst (λ r. allowed r status ≡ true → Admits r status (table_of r))
          (sym (eq_of resource "exercises" e))
          (λ h. inr (inl (refl, refl, (exercises_allowed status).0 h))) h
    | inr x ↦ elim (Bool-cases (resource == "exams")) [
      | inl e ↦
          subst (λ r. allowed r status ≡ true → Admits r status (table_of r))
            (sym (eq_of resource "exams" e))
            (λ h. inr (inr (inl (refl, refl, (exams_allowed status).0 h)))) h
      | inr y ↦ elim (Bool-cases (resource == "support")) [
        | inl e ↦
            subst (λ r. allowed r status ≡ true → Admits r status (table_of r))
              (sym (eq_of resource "support" e))
              (λ h. inr (inr (inr (refl, refl, (support_allowed status).0 h)))) h
        | inr z ↦ ground arith
      ]
    ]
  ]
]

pub Admits-allowed :
    (resource status table : String)
    → Admits resource status table
    → (allowed resource status ≡ true) × (table ≡ table_of resource)
unfolding table_of
Admits-allowed resource status table (inl (r, t, s)) =
    (ap (λ x. allowed x status) r ∙ (classes_allowed status).1 s, t ∙ ap table_of (sym r))
Admits-allowed resource status table (inr (inl (r, t, s))) =
    (ap (λ x. allowed x status) r ∙ (exercises_allowed status).1 s, t ∙ ap table_of (sym r))
Admits-allowed resource status table (inr (inr (inl (r, t, s)))) =
    (ap (λ x. allowed x status) r ∙ (exams_allowed status).1 s, t ∙ ap table_of (sym r))
Admits-allowed resource status table (inr (inr (inr (r, t, s)))) =
    (ap (λ x. allowed x status) r ∙ (support_allowed status).1 s, t ∙ ap table_of (sym r))
