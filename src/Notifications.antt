-- ===== src/Notifications.antt =====
-- backend/internal/notifications/hub.go: the channels over which the users receive their events. An
-- operation that Go ends with a panic, a send on a closed channel or a second close of one, is `none`.
pub mod Laws
pub mod Service
pub mod Panics
mod Tests
use Prim.Native.String.{◌++◌}
use fluenthub.Prelude.{
  ℕ, suc, ◌+◌, String, Bool, true, false, ◌&&◌, ◌||◌, not, Option, none, some, List, [], ◌∷◌, map,
  ◌==◌, eqb, ltb, if◌then◌else◌, exists_where, select_where, update_where, insert, length,
}

-- A channel with what is buffered in it, the oldest first.
pub record Channel : Type 0 where
  pub id : ℕ
  pub buffer : List String
  pub closed : Bool

-- `clients` has an entry for each channel of each user; `next` is the next channel to be made.
pub record Hub : Type 0 where
  pub clients : List (String × ℕ)
  pub channels : List Channel
  pub next : ℕ

abbrev pub new_hub : Hub
new_hub = record { clients = []; channels = []; next = 0 }

abbrev pub is_open : ℕ → List Channel → Bool
is_open ch channels = exists_where (λ c. eqb c.id ch && not c.closed) channels

-- `make(chan []byte, 16)`
abbrev pub capacity : ℕ
capacity = 16

unfoldable pub subscribe : String → Hub → ℕ × Hub
subscribe user_id hub = (
  hub.next,
  record {
    clients = (user_id, hub.next) ∷ hub.clients;
    channels = record { id = hub.next; buffer = []; closed = false } ∷ hub.channels;
    next = suc hub.next;
  },
)

-- close(ch)
abbrev pub shut : Channel → Channel
shut c = record c { closed = true }

unfoldable pub close_channel : ℕ → List Channel → Option (List Channel)
close_channel ch channels =
    if is_open ch channels then some (update_where (λ c. eqb c.id ch) shut channels) else none

-- `select { case ch <- message: default: }`
abbrev pub push : String → Channel → Channel
push message c = record c {
  buffer = if ltb (length c.buffer) capacity then insert message c.buffer else c.buffer;
}

unfoldable pub send : String → ℕ → List Channel → Option (List Channel)
send message ch channels =
    if is_open ch channels
    then some (update_where (λ c. eqb c.id ch) (push message) channels)
    else none

-- The function that Subscribe returns.
unfoldable pub unsubscribe : String → ℕ → Hub → Option Hub
unfolding close_channel
unsubscribe user_id ch hub = elim (close_channel ch hub.channels) [
  | none ↦ none
  | some channels ↦ some (record hub {
    clients = select_where (λ e. not (e.0 == user_id && eqb e.1 ch)) hub.clients;
    channels = channels;
  })
]

abbrev pub channels_of : String → List (String × ℕ) → List ℕ
channels_of user_id clients = map (λ e. e.1) (select_where (λ e. e.0 == user_id) clients)

unfoldable pub send_all : String → List ℕ → List Channel → Option (List Channel)
unfolding send
send_all message [] channels = some channels
send_all message (ch ∷ chs) channels = elim (send message ch channels) [
  | none ↦ none
  | some channels' ↦ send_all message chs channels'
]

-- `fmt.Sprintf("event: %s\ndata: %s\n\n", event, data)`
abbrev pub event_text : String → String → String
event_text event data_text = "event: " ++ event ++ "\ndata: " ++ data_text ++ "\n\n"

unfoldable pub dispatch : String → String → String → Hub → Option Hub
unfolding send_all
dispatch user_id event data_text hub =
    elim (send_all (event_text event data_text) (channels_of user_id hub.clients) hub.channels) [
      | none ↦ none
      | some channels ↦ some (record hub { channels = channels })
    ]

unfoldable pub close_all : List ℕ → List Channel → Option (List Channel)
unfolding close_channel
close_all [] channels = some channels
close_all (ch ∷ chs) channels = elim (close_channel ch channels) [
  | none ↦ none
  | some channels' ↦ close_all chs channels'
]

unfoldable pub close : Hub → Option Hub
unfolding close_all
close hub = elim (close_all (map (λ e. e.1) hub.clients) hub.channels) [
  | none ↦ none
  | some channels ↦ some (record hub { clients = []; channels = channels })
]
