-- ===== src/Notifications/Laws.antt =====
-- When the hub panics, and when not.
use fluenthub.Prelude.{
  ℕ, ◌≤◌, ◌<◌, String, ◌≡◌, refl, ◌∙◌, true, false, ◌&&◌, not, some, List, [], ◌∷◌, map, eqb,
  exists_where, update_where, length, All, arith,
}
use fluenthub.Prelude.Tables.{
  length-insert, All-update, exists_where-update, exists_where-update_none, All-map,
}
use fluenthub.Notifications.{Channel, Hub, is_open, capacity, shut, push, send_all, close_all}

is_open-push :
    (ch ch' : ℕ) (message : String) (channels : List Channel)
    → is_open ch (update_where (λ c. eqb c.id ch') (push message) channels) ≡ is_open ch channels
is_open-push ch ch' message channels =
    exists_where-update (λ c. eqb c.id ch && not c.closed) (λ c. eqb c.id ch') (push message)
      channels (λ c. refl)

pub is_open-shut_other :
    (ch ch' : ℕ) (channels : List Channel)
    → eqb ch' ch ≡ false
    → is_open ch (update_where (λ c. eqb c.id ch') shut channels) ≡ is_open ch channels
unfolding exists_where update_where
is_open-shut_other ch ch' [] h = refl
is_open-shut_other ch ch' (c ∷ channels) h = ground (arith, is_open-shut_other ch ch' channels h)

pub is_open-shut :
    (ch : ℕ) (channels : List Channel)
    → is_open ch (update_where (λ c. eqb c.id ch) shut channels) ≡ false
is_open-shut ch channels =
    exists_where-update_none (λ (c : Channel). eqb c.id ch && not c.closed) (λ c. eqb c.id ch) shut
      channels (λ c hit. ground arith) (λ c miss. ground arith)

-- What stays shut when others are closed.
is_open-shut_any :
    (ch ch' : ℕ) (channels : List Channel)
    → is_open ch channels ≡ false
    → is_open ch (update_where (λ c. eqb c.id ch') shut channels) ≡ false
unfolding exists_where update_where
is_open-shut_any ch ch' [] h = refl
is_open-shut_any ch ch' (c ∷ channels) h = ground (arith, is_open-shut_any ch ch' channels)

abbrev pub AllOpen : List ℕ → List Channel → Type 0
AllOpen chs channels = All (λ ch. is_open ch channels ≡ true) chs

abbrev pub Distinct : List ℕ → Type 0
Distinct [] = Unit
Distinct (ch ∷ chs) = All (λ ch'. eqb ch ch' ≡ false) chs × Distinct chs

abbrev pub Bounded : List Channel → Type 0
Bounded = All (λ c. length c.buffer ≤ capacity)

-- Every registered channel is open, none is registered twice or not yet made, and no buffer is too long.
abbrev pub IsWellFormed : Hub → Type 0
IsWellFormed hub =
    AllOpen (map (λ e. e.1) hub.clients) hub.channels
    × Distinct (map (λ e. e.1) hub.clients)
    × All (λ ch. ch < hub.next) (map (λ e. e.1) hub.clients)
    × Bounded hub.channels

push-Bounded :
    (ch : ℕ) (message : String) (channels : List Channel)
    → Bounded channels
    → Bounded (update_where (λ c. eqb c.id ch) (push message) channels)
push-Bounded ch message channels h =
    All-update (λ c. length c.buffer ≤ capacity) (λ c. length c.buffer ≤ capacity)
      (λ c. eqb c.id ch) (push message) channels h
      (λ c hit old. ground (arith, length-insert message c.buffer)) (λ c miss old. old)

pub shut-Bounded :
    (ch : ℕ) (channels : List Channel)
    → Bounded channels
    → Bounded (update_where (λ c. eqb c.id ch) shut channels)
shut-Bounded ch channels h =
    All-update (λ c. length c.buffer ≤ capacity) (λ c. length c.buffer ≤ capacity)
      (λ c. eqb c.id ch) shut channels h (λ c hit old. old) (λ c miss old. old)

-- Sends on open channels succeed, and leave them open.
pub send_all-AllOpen :
    (message : String) (chs others : List ℕ) (channels : List Channel)
    → AllOpen chs channels
    → AllOpen others channels
    → Bounded channels
    → (channels' : List Channel) × (send_all message chs channels ≡ some channels')
      × AllOpen others channels'
      × Bounded channels'
unfolding send_all
send_all-AllOpen message [] others channels open_chs opens bounded =
    (channels, refl, opens, bounded)
send_all-AllOpen message (ch ∷ chs) others channels (open_ch, open_chs) opens bounded =
    let sent = update_where (λ (c : Channel). eqb c.id ch) (push message) channels in
    let keeps =
      λ (ch' : ℕ) (h : is_open ch' channels ≡ true). is_open-push ch' ch message channels ∙ h in
    let keep = λ (os : List ℕ) (h : AllOpen os channels).
      All-map (λ ch'. is_open ch' channels ≡ true) (λ ch'. is_open ch' sent ≡ true) os h keeps in
    rw (open_ch, send_all)
      (send_all-AllOpen message chs others sent (keep chs open_chs) (keep others opens)
        (push-Bounded ch message channels bounded))

-- What is open and another channel stays open.
pub shut-AllOpen :
    (ch : ℕ) (channels : List Channel) (os : List ℕ)
    → AllOpen os channels
    → All (λ ch'. eqb ch ch' ≡ false) os
    → AllOpen os (update_where (λ c. eqb c.id ch) shut channels)
shut-AllOpen ch channels [] h k = tt
shut-AllOpen ch channels (o ∷ os) (h, hs) (k, ks) =
    (is_open-shut_other o ch channels k ∙ h, shut-AllOpen ch channels os hs ks)

-- Closing distinct open channels succeeds, and leaves them and what was shut before shut.
pub close_all-Distinct :
    (chs : List ℕ) (channels : List Channel)
    → AllOpen chs channels
    → Distinct chs
    → (channels' : List Channel) × (close_all chs channels ≡ some channels')
      × All (λ ch. is_open ch channels' ≡ false) chs
      × ((ch : ℕ) → is_open ch channels ≡ false → is_open ch channels' ≡ false)
unfolding close_all
close_all-Distinct [] channels opens distinct = (channels, refl, tt, λ ch h. h)
close_all-Distinct (ch ∷ chs) channels (open_ch, opens) (apart, distinct) =
    let closed = update_where (λ (c : Channel). eqb c.id ch) shut channels in
    let (channels', done, shut_chs, stays) =
      close_all-Distinct chs closed (shut-AllOpen ch channels chs opens apart) distinct in
    (
      channels',
      rw (open_ch, close_all) done,
      (stays ch (is_open-shut ch channels), shut_chs),
      λ ch' h. stays ch' (is_open-shut_any ch' ch channels h),
    )
