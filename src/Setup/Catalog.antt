-- ===== src/Setup/Catalog.antt =====
-- backend/internal/permissions/catalog.go: the permissions, and that the roles of the set-up get only these.
use fluenthub.Prelude.{String, ◌≡◌, refl, true, List, [], ◌∷◌, ◌==◌, exists_where, All, if_ind}
use fluenthub.Setup.{default_permissions}

abbrev pub catalog : List String
catalog =
    "school.manage" ∷ "branding.manage" ∷ "admin.create" ∷ "users.read" ∷ "users.manage"
    ∷ "units.read" ∷ "units.manage" ∷ "courses.read" ∷ "courses.manage" ∷ "classes.read"
    ∷ "classes.manage" ∷ "teachers.manage" ∷ "students.manage" ∷ "operators.manage" ∷ "lessons.read"
    ∷ "lessons.manage" ∷ "exercises.read" ∷ "exercises.manage" ∷ "exercises.grade" ∷ "exams.read"
    ∷ "exams.manage" ∷ "exams.grade" ∷ "attendance.read" ∷ "attendance.manage" ∷ "billing.read"
    ∷ "billing.manage" ∷ "notifications.read" ∷ "notifications.send" ∷ "support.open"
    ∷ "support.assign" ∷ "support.handle" ∷ "academic.read" ∷ "academic.manage"
    ∷ "academic.override" ∷ "certificates.read" ∷ "certificates.issue" ∷ "audit.read" ∷ []

abbrev InCatalog : String → Type 0
InCatalog permission = exists_where (λ (code : String). code == permission) catalog ≡ true

-- Every permission that a role gets at the set-up is one of the catalog.
pub default_permissions-catalog : (role : String) → All InCatalog (default_permissions role)
unfolding default_permissions exists_where
default_permissions-catalog role =
    if_ind (All InCatalog) (role == "teacher") teacher
      (if_ind (All InCatalog) (role == "operator") operator student)
  where
    teacher : All InCatalog (default_permissions "teacher")
    teacher = (
      refl,
      (
        refl,
        (
          refl,
          (
            refl,
            (refl, (refl, (refl, (refl, (refl, (refl, (refl, (refl, (refl, (refl, tt)))))))))),
          ),
        ),
      ),
    )

    operator : All InCatalog (default_permissions "operator")
    operator = (refl, (refl, (refl, (refl, (refl, (refl, (refl, (refl, (refl, tt)))))))))

    student : All InCatalog (default_permissions "student")
    student = (refl, (refl, (refl, (refl, (refl, (refl, (refl, (refl, (refl, (refl, tt))))))))))
