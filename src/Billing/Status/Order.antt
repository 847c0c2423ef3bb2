-- ===== src/Billing/Status/Order.antt =====
-- The statuses of an invoice in the order in which it may pass through them, and that paymentStatus
-- moves an invoice forward in that order only.
use fluenthub.Prelude.{
  ℕ, String, ◌≤◌, ◌≡◌, refl, Bool-cases, if_ind, inl, inr, ◌==◌, eq_iff, if◌then◌else◌, arith, ltb,
}
use fluenthub.Billing.Status.{
  map_asaas_status, provider_desired, desired_status, guard_transition, payment_status,
}

-- The values that the column invoices.status admits.
pub data Status : Type 0 where
  draft issued overdue paid cancelled : Status

abbrev pub text : Status → String
text draft = "draft"
text issued = "issued"
text overdue = "overdue"
text paid = "paid"
text cancelled = "cancelled"

abbrev pub rank : Status → ℕ
rank draft = 0
rank issued = 1
rank overdue = 2
rank paid = 3
rank cancelled = 4

abbrev pub later : Status → Status → Status
later s d = if ltb (rank s) (rank d) then d else s

-- A text that is a status after draft.
abbrev IsDesired : String → Type 0
IsDesired t = (s : Status) × (t ≡ text s) × (1 ≤ rank s)

map_asaas_status-IsDesired : (p : String) → IsDesired (map_asaas_status p)
unfolding map_asaas_status
map_asaas_status-IsDesired p =
    if_ind IsDesired _ (paid, refl, omega arith)
      (if_ind IsDesired _ (overdue, refl, omega arith)
        (if_ind IsDesired _ (cancelled, refl, omega arith) (issued, refl, omega arith)))

provider_desired-IsDesired : (p : String) → IsDesired (provider_desired p)
unfolding provider_desired
provider_desired-IsDesired p = elim (Bool-cases (p == "issued")) [
  | inl h ↦ rw h (issued, (eq_iff p "issued").0 h, omega arith)
  | inr n ↦ elim (Bool-cases (p == "overdue")) [
    | inl h ↦ rw (n, h) (overdue, (eq_iff p "overdue").0 h, omega arith)
    | inr m ↦ elim (Bool-cases (p == "paid")) [
      | inl h ↦ rw (n, m, h) (paid, (eq_iff p "paid").0 h, omega arith)
      | inr k ↦ elim (Bool-cases (p == "cancelled")) [
        | inl h ↦ rw (n, m, k, h) (cancelled, (eq_iff p "cancelled").0 h, omega arith)
        | inr j ↦ rw (n, m, k, j) (map_asaas_status-IsDesired p)
      ]
    ]
  ]
]

-- Whatever event or status arrives, what it asks for is a status of an invoice, and not a draft.
pub desired_status-IsDesired : (e p : String) → IsDesired (desired_status e p)
unfolding desired_status
desired_status-IsDesired e p =
    if_ind IsDesired _ (paid, refl, omega arith)
      (if_ind IsDesired _ (overdue, refl, omega arith)
        (if_ind IsDesired _ (cancelled, refl, omega arith) (provider_desired-IsDesired p)))

-- The guards are the order of the statuses.
guard_transition_lem :
    (s d : Status)
    → 1 ≤ rank d
    → guard_transition (text s) (text d) ≡ (text (later s d), ltb (rank s) (rank d))
unfolding guard_transition
guard_transition_lem draft draft h = absurd (omega arith)
guard_transition_lem issued draft h = absurd (omega arith)
guard_transition_lem overdue draft h = absurd (omega arith)
guard_transition_lem paid draft h = absurd (omega arith)
guard_transition_lem cancelled draft h = absurd (omega arith)
guard_transition_lem draft issued h = refl
guard_transition_lem _ _ h = refl

-- The status that an event asks for.
pub desired : String → String → Status
desired e p = (desired_status-IsDesired e p).0

-- paymentStatus takes the later of the status that an invoice has and of the one that the event asks
-- for, and reports a change exactly when the latter is strictly later.
pub payment_status_is_later :
    (s : Status) (e p : String)
    → payment_status (text s) e p
      ≡ (text (later s (desired e p)), ltb (rank s) (rank (desired e p)))
unfolding payment_status desired
payment_status_is_later s e p =
    let (d, eq, h) = desired_status-IsDesired e p in rw eq (guard_transition_lem s d h)
