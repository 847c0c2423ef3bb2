-- ===== src/Billing/Status/Sequence.antt =====
-- Events of the provider come in any order and more than once: what a sequence of them leaves.
use mathlib.Core.List.{Perm, foldr}
use mathlib.Core.List.Perm
use fluenthub.Prelude.{String, ◌≡◌, refl, ◌∙◌, sym, ap, arith, List, [], ◌∷◌}
use fluenthub.Billing.Status.{payment_status}
use fluenthub.Billing.Status.Order.{Status, text, later, desired, payment_status_is_later}

-- An event: its type, and the status of the payment that it carries.
abbrev pub Event : Type 0
Event = String × String

-- The status after a sequence of events, the first one first.
unfoldable pub settle : String → List Event → String
settle current [] = current
settle current ((e, p) ∷ events) = settle (payment_status current e p).0 events

abbrev absorb : Event → Status → Status
absorb (e, p) s = later s (desired e p)

later_comm : (s a b : Status) → later (later s a) b ≡ later (later s b) a
later_comm s a b = ground arith

absorb_comm : (a b : Event) (s : Status) → absorb a (absorb b s) ≡ absorb b (absorb a s)
absorb_comm (e, p) (f, q) s = later_comm s (desired f q) (desired e p)

foldr-later :
    (events : List Event) (s d : Status)
    → foldr absorb (later s d) events ≡ later (foldr absorb s events) d
foldr-later [] s d = refl
foldr-later ((e, p) ∷ events) s d =
    rw (foldr-later events s d) (later_comm (foldr absorb s events) d (desired e p))

settle-eq-foldr :
    (events : List Event) (s : Status) → settle (text s) events ≡ text (foldr absorb s events)
unfolding settle
settle-eq-foldr [] s = refl
settle-eq-foldr ((e, p) ∷ events) s =
    rw (payment_status_is_later s e p) (
      settle-eq-foldr events (later s (desired e p)) ∙ ap text (foldr-later events s (desired e p)))

Status-set : IsSet Status
Status-set = hlevel

-- From a status that an invoice can have, two sequences that hold the same events, each as often,
-- leave the same status, in whatever order they come.
pub settle-perm :
    (s : Status) {events events' : List Event}
    → Perm events events'
    → settle (text s) events ≡ settle (text s) events'
settle-perm s {events} {events'} p =
    settle-eq-foldr events s
    ∙ ap text (Perm.foldr-eq Status-set absorb absorb_comm p s)
    ∙ sym (settle-eq-foldr events' s)

later_idem : (s d : Status) → later (later s d) d ≡ later s d
later_idem s d = ground arith

-- A second delivery of an event changes nothing.
pub settle-duplicate :
    (s : Status) (a : Event) (events : List Event)
    → settle (text s) (a ∷ a ∷ events) ≡ settle (text s) (a ∷ events)
settle-duplicate s (e, p) events =
    settle-eq-foldr ((e, p) ∷ (e, p) ∷ events) s
    ∙ ap text (later_idem (foldr absorb s events) (desired e p))
    ∙ sym (settle-eq-foldr ((e, p) ∷ events) s)
