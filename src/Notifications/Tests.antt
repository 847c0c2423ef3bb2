-- ===== src/Notifications/Tests.antt =====
-- Runs of the hub on concrete data.
use fluenthub.Prelude.{
  ◌≤◌, ◌<◌, String, ◌≡◌, refl, Bool, true, false, Option, none, some, List, [], ◌∷◌, arith,
}
use fluenthub.Notifications.{Hub, unsubscribe, dispatch, close}
use fluenthub.Notifications.Laws.{IsWellFormed}
use fluenthub.Notifications.Panics.{is_registered, dispatch-IsWellFormed, close-unsubscribe}

-- Two subscriptions of one user.
abbrev hub : Hub
hub = record {
  clients = ("user-1", 1) ∷ ("user-1", 0) ∷ [];
  channels =
      record { id = 1; buffer = []; closed = false }
      ∷ record { id = 0; buffer = "event: ping\ndata: {}\n\n" ∷ []; closed = false }
      ∷ [];
  next = 2;
}

hub-IsWellFormed : IsWellFormed hub
unfolding fluenthub.Prelude.exists_where
hub-IsWellFormed = (
  (refl, (refl, tt)),
  ((refl, tt), (tt, tt)),
  (omega arith, (omega arith, tt)),
  (omega arith, (omega arith, tt)),
)

dispatch-IsWellFormed_example :
    (hub' : Hub) × (dispatch "user-1" "ping" "{}" hub ≡ some hub')
    × IsWellFormed hub'
    × (hub'.clients ≡ hub.clients)
dispatch-IsWellFormed_example = dispatch-IsWellFormed hub "user-1" "ping" "{}" hub-IsWellFormed

registered_test : is_registered "user-1" 0 hub ≡ true
unfolding fluenthub.Prelude.exists_where
registered_test = refl

close-unsubscribe_example :
    (hub' : Hub) × (close hub ≡ some hub') × (unsubscribe "user-1" 0 hub' ≡ none)
close-unsubscribe_example = close-unsubscribe hub "user-1" 0 hub-IsWellFormed registered_test
