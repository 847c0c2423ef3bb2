-- ===== src/Notifications/Panics.antt =====
-- Which operations on the hub succeed, and that closing it makes the end of a subscription panic.
use fluenthub.Prelude.{
  if_ind, eq_refl, ℕ, suc, ◌<◌, String, ◌≡◌, refl, Bool, true, false, ◌&&◌, not, none, some, List,
  [], ◌∷◌, map, ◌==◌, eqb, exists_where, select_where, update_where, All, arith, Bool-cases, inl,
  inr, subst,
}
use fluenthub.Prelude.Tables.{All-map}
use fluenthub.Notifications.{
  event_text, Channel, Hub, is_open, subscribe, shut, close_channel, unsubscribe, channels_of,
  dispatch, close,
}
use fluenthub.Notifications.Laws.{
  is_open-shut, shut-AllOpen, shut-Bounded, AllOpen, Distinct, IsWellFormed, send_all-AllOpen,
  close_all-Distinct,
}

abbrev pub chans : Hub → List ℕ
chans hub = map (λ e. e.1) hub.clients

-- The user has this channel.
abbrev pub is_registered : String → ℕ → Hub → Bool
is_registered user_id ch hub = exists_where (λ e. e.0 == user_id && eqb e.1 ch) hub.clients

channels_of-AllOpen :
    (user_id : String) (clients : List (String × ℕ)) (channels : List Channel)
    → AllOpen (map (λ e. e.1) clients) channels
    → AllOpen (channels_of user_id clients) channels
unfolding select_where
channels_of-AllOpen user_id [] channels h = tt
channels_of-AllOpen user_id (e ∷ clients) channels (h, hs) =
    ground (arith, channels_of-AllOpen user_id clients channels hs)

eqb-eq : (a b : ℕ) → eqb a b ≡ true → a ≡ b
eqb-eq a b e = ground arith

registered_all :
    (P : ℕ → Type 0) (user_id : String) (ch : ℕ) (clients : List (String × ℕ))
    → All P (map (λ e. e.1) clients)
    → exists_where (λ e. e.0 == user_id && eqb e.1 ch) clients ≡ true
    → P ch
unfolding exists_where
registered_all P user_id ch [] h k = cc
registered_all P user_id ch (e ∷ clients) (h, hs) k =
    elim (Bool-cases (e.0 == user_id && eqb e.1 ch)) [
      | inl hit ↦ subst P (eqb-eq e.1 ch (ground arith)) h
      | inr miss ↦ registered_all P user_id ch clients hs (ground arith)
    ]

module _ (P : ℕ → Type 0) (q : String × ℕ → Bool) where
  All-select :
      (clients : List (String × ℕ))
      → All P (map (λ e. e.1) clients)
      → All P (map (λ e. e.1) (select_where q clients))
  unfolding select_where
  All-select [] h = tt
  All-select (e ∷ clients) (h, hs) =
      if_ind (λ (xs : List (String × ℕ)). All P (map (λ e. e.1) xs)) (q e)
        (h, All-select clients hs) (All-select clients hs)

-- Of the other subscriptions none has the channel.
others :
    (user_id : String) (ch : ℕ) (clients : List (String × ℕ))
    → Distinct (map (λ e. e.1) clients)
    → exists_where (λ e. e.0 == user_id && eqb e.1 ch) clients ≡ true
    → All
        (λ ch'. eqb ch ch' ≡ false)
        (map (λ e. e.1) (select_where (λ e. not (e.0 == user_id && eqb e.1 ch)) clients))
unfolding exists_where select_where
others user_id ch [] distinct h = cc
others user_id ch (e ∷ clients) (apart, distinct) h =
    elim (Bool-cases (e.0 == user_id && eqb e.1 ch)) [
      | inl hit ↦ rw hit (
          subst
            (λ c.
              All (λ ch'. eqb c ch' ≡ false)
                (map (λ e. e.1) (select_where (λ e. not (e.0 == user_id && eqb e.1 ch)) clients)))
            (eqb-eq e.1 ch (ground arith))
            (All-select (λ ch'. eqb e.1 ch' ≡ false) (λ e. not (e.0 == user_id && eqb e.1 ch))
              clients apart))
      | inr miss ↦
          let rest : exists_where (λ (e : String × ℕ). e.0 == user_id && eqb e.1 ch) clients
              ≡ true =
            ground arith in
          let different : eqb e.1 ch ≡ false =
            registered_all (λ c. eqb e.1 c ≡ false) user_id ch clients apart rest in
          rw miss (ground arith, others user_id ch clients distinct rest)
    ]

Distinct-select :
    (q : String × ℕ → Bool) (clients : List (String × ℕ))
    → Distinct (map (λ e. e.1) clients)
    → Distinct (map (λ e. e.1) (select_where q clients))
unfolding select_where
Distinct-select q [] h = tt
Distinct-select q (e ∷ clients) (apart, distinct) =
    if_ind (λ (xs : List (String × ℕ)). Distinct (map (λ e. e.1) xs)) (q e)
      (All-select (λ ch'. eqb e.1 ch' ≡ false) q clients apart, Distinct-select q clients distinct)
      (Distinct-select q clients distinct)

module _ (hub : Hub) (user_id : String) where
  -- The end of a registered subscription in a well-formed hub does not panic, leaves it well-formed, and
  -- closes its channel.
  pub unsubscribe-IsWellFormed :
      (ch : ℕ)
      → IsWellFormed hub
      → is_registered user_id ch hub ≡ true
      → (hub' : Hub) × (unsubscribe user_id ch hub ≡ some hub')
        × IsWellFormed hub'
        × (is_open ch hub'.channels ≡ false)
  unfolding unsubscribe close_channel
  unsubscribe-IsWellFormed ch (opens, distinct, made, bounded) registered =
      let q = λ (e : String × ℕ). not (e.0 == user_id && eqb e.1 ch) in
      let open_ch =
        registered_all (λ c. is_open c hub.channels ≡ true) user_id ch hub.clients opens
          registered in
      (
        record hub {
          clients = select_where q hub.clients;
          channels = update_where (λ c. eqb c.id ch) shut hub.channels;
        },
        rw (open_ch, unsubscribe) refl,
        (
          shut-AllOpen ch hub.channels (map (λ e. e.1) (select_where q hub.clients))
              (All-select (λ c. is_open c hub.channels ≡ true) q hub.clients opens)
              (others user_id ch hub.clients distinct registered),
          Distinct-select q hub.clients distinct,
          All-select (λ c. c < hub.next) q hub.clients made,
          shut-Bounded ch hub.channels bounded,
        ),
        is_open-shut ch hub.channels,
      )

  -- A dispatch in a well-formed hub does not panic, and leaves it well-formed with the same subscriptions,
  -- however many messages a slow subscriber has left unread: no buffer grows over 16.
  pub dispatch-IsWellFormed :
      (event data_text : String)
      → IsWellFormed hub
      → (hub' : Hub) × (dispatch user_id event data_text hub ≡ some hub')
        × IsWellFormed hub'
        × (hub'.clients ≡ hub.clients)
  unfolding dispatch
  dispatch-IsWellFormed event data_text (opens, distinct, made, bounded) =
      let (channels', done, opens', bounded') =
        send_all-AllOpen (event_text event data_text) (channels_of user_id hub.clients) (chans hub)
          hub.channels (channels_of-AllOpen user_id hub.clients hub.channels opens) opens bounded in
      (
        record hub { channels = channels' },
        rw (done, dispatch) refl,
        (opens', distinct, made, bounded'),
        refl,
      )

  -- A subscription leaves a well-formed hub well-formed, with a channel of its own that is registered.
  pub subscribe-IsWellFormed :
      IsWellFormed hub
      → let (ch, hub') = subscribe user_id hub in
        IsWellFormed hub'
        × (is_registered user_id ch hub' ≡ true)
        × (is_registered user_id ch hub ≡ false)
  unfolding subscribe exists_where
  subscribe-IsWellFormed (opens, distinct, made, bounded) = (
    (
      (
        ground arith,
        All-map (λ ch. is_open ch hub.channels ≡ true)
            (λ ch. is_open ch (subscribe user_id hub).1.channels ≡ true) (chans hub) opens
            (λ ch h. ground arith),
      ),
      (
        All-map (λ ch. ch < hub.next) (λ ch. eqb hub.next ch ≡ false) (chans hub) made
            (λ ch h. ground arith),
        distinct,
      ),
      (
        omega arith,
        All-map (λ ch. ch < hub.next) (λ ch. ch < suc hub.next) (chans hub) made
            (λ ch h. omega (arith, h)),
      ),
      (omega arith, bounded),
    ),
    ground (arith, eq_refl user_id),
    fresh,
  )
    where
      fresh : is_registered user_id hub.next hub ≡ false
      fresh = elim (Bool-cases (is_registered user_id hub.next hub)) [
        | inl old ↦ absurd (
            omega
              (arith, registered_all (λ ch. ch < hub.next) user_id hub.next hub.clients made old))
        | inr new ↦ new
      ]

  -- Closing a well-formed hub does not panic; but after it the function that ends a subscription which was
  -- registered then panics: it closes a channel that is closed already.
  pub close-unsubscribe :
      (ch : ℕ)
      → IsWellFormed hub
      → is_registered user_id ch hub ≡ true
      → (hub' : Hub) × (close hub ≡ some hub') × (unsubscribe user_id ch hub' ≡ none)
  unfolding close unsubscribe close_channel
  close-unsubscribe ch (opens, distinct, made, bounded) registered =
      let (channels', done, shut_all, stays) =
        close_all-Distinct (chans hub) hub.channels opens distinct in
      let closed =
        registered_all (λ c. is_open c channels' ≡ false) user_id ch hub.clients shut_all
          registered in
      (
        record hub { clients = []; channels = channels' },
        rw (done, close) refl,
        rw (closed, unsubscribe) refl,
      )
