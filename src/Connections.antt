-- ===== src/Connections.antt =====
-- transport/ws/connectionHandler.ts: the life of the sockets that are open on the sessions. Each await is
-- a step of its own, and steps of different sockets interleave. A socket is a number, and a session is
-- known by its id: a store gives one object for one id.
pub mod Lending
pub mod Alike
pub mod Closing
pub mod Safety
pub mod Told
pub mod Hooks
pub mod Examples
use halengine.Prelude.{
  ℕ, suc, Text, text_eq, Bool, true, false, not, ◌&&◌, ◌||◌, ◌≡◌, Option, none, some, List, [], ◌∷◌,
  ◌++◌, if◌then◌else◌, ◌==◌,
}
use mathlib.Core.Option
use halengine.Session.{AuthHeaders, AuthenticatedUser}

-- What an upgrade leaves on its socket.
pub record ExtWebSocket : Type 0 where
  pub auth_headers : Option AuthHeaders
  pub user : Option AuthenticatedUser

-- The local state of openSession. `held` is whether `held.session` is set, `ending` whether it waits for
-- an eviction before it ends the session, and `broken` whether its setup threw, so that the engine has told
-- the socket to close.
pub record Connection : Type 0 where
  pub session_id : Text
  pub resumed : Bool
  pub closed : Bool
  pub settled : Bool
  pub notified : Bool
  pub delivered : Bool
  pub held : Bool
  pub ending : Bool
  pub broken : Bool

abbrev pub new_connection : Connection
new_connection = record {
  session_id = [];
  resumed = false;
  closed = false;
  settled = false;
  notified = false;
  delivered = false;
  held = false;
  ending = false;
  broken = false;
}

-- How a connected frame comes out: it and the replay go out, their sending throws, or what it is made of
-- throws before that.
pub data Setup : Type 0 where
  sent unsent unprepared : Setup

-- What a connection does that others see, in the order that it is done, the latest first.
pub data Effect : Type 0 where
  on_connect : (socket : ℕ) → Effect
  on_disconnect : (socket : ℕ) → Effect
  evicts : (socket : ℕ) → Effect

-- The two connection-scoped fields of a session.
pub record Lent : Type 0 where
  pub auth_headers : Option AuthHeaders
  pub user : Option AuthenticatedUser

pub record World : Type 0 where
  pub connections : ℕ → Connection
  pub open_sockets : Text → List ℕ
  pub lent : Text → Lent
  pub effects : List Effect

unfoldable pub includes : ℕ → List ℕ → Bool
includes i [] = false
includes i (j ∷ js) = j == i || includes i js

-- open.filter(socket => socket !== ws)
unfoldable pub without : ℕ → List ℕ → List ℕ
without i [] = []
without i (j ∷ js) = let rest = without i js in if j == i then rest else j ∷ rest

-- remaining.at(-1)
unfoldable pub newest : List ℕ → Option ℕ
newest [] = none
newest (i ∷ []) = some i
newest (i ∷ j ∷ js) = newest (j ∷ js)

abbrev pub changed {ℓ} : {A : Type ℓ} → (ℕ → A) → ℕ → A → ℕ → A
changed f i a j = if i == j then a else f j

abbrev pub changed_at {ℓ} : {A : Type ℓ} → (Text → A) → Text → A → Text → A
changed_at f id a k = if text_eq id k then a else f k

abbrev pub with_open : Text → List ℕ → World → World
with_open id is w = record w { open_sockets = changed_at w.open_sockets id is }

abbrev pub with_connection : ℕ → Connection → World → World
with_connection i c w = record w { connections = changed w.connections i c }

abbrev pub with_effect : Effect → World → World
with_effect e w = record w { effects = e ∷ w.effects }

abbrev pub with_effect_if : Bool → Effect → World → World
with_effect_if true e w = with_effect e w
with_effect_if false e w = w

-- From here on the session is evicted, unless it was resumed, and then ended.
unfoldable pub begin_ending : ℕ → World → World
begin_ending i w =
    let c = w.connections i in
    with_effect_if (not c.resumed) (evicts i)
      (with_connection i (record c { held = true; ending = true }) w)

unfoldable pub deliver : ℕ → World → World
deliver i w =
    with_effect (on_connect i) (with_connection i (record (w.connections i) { delivered = true }) w)

-- The setup throws past its own `catch`: the socket is told to close, and nothing else is done.
unfoldable pub give_up : ℕ → World → World
give_up i w = with_connection i (record (w.connections i) { broken = true }) w

-- The store has no session for it: the socket is closed, and holds nothing.
unfoldable pub settle_failed : ℕ → World → World
settle_failed i w = with_connection i (record (w.connections i) { settled = true }) w

abbrev pub new_world : World
new_world = record {
  connections = λ i. new_connection;
  open_sockets = λ id. [];
  lent = λ id. record { auth_headers = none; user = none };
  effects = [];
}

module _ (sockets : ℕ → ExtWebSocket) where
  unfoldable pub lent_by : Option ℕ → Lent
  lent_by none = record { auth_headers = none; user = none }
  lent_by (some i) = record { auth_headers = (sockets i).auth_headers; user = (sockets i).user }

  unfoldable pub lend : Text → Option ℕ → World → World
  unfolding lent_by
  lend id socket w = record w { lent = changed_at w.lent id (lent_by socket) }

  unfoldable pub join : Text → ℕ → World → World
  unfolding lend
  join id i w = lend id (some i) (with_open id (w.open_sockets id ++ i ∷ []) w)

  -- An entry that is deleted reads as an empty list.
  unfoldable pub leave : Text → ℕ → World → World
  unfolding lend includes without newest
  leave id i w =
      if includes i (w.open_sockets id)
      then (let remaining = without i (w.open_sockets id) in
          lend id (newest remaining) (with_open id remaining w))
      else w

  abbrev pub left_if : Bool → Text → ℕ → World → World
  unfolding leave
  left_if true id i w = leave id i w
  left_if false id i w = w

  unfoldable pub end_by : (notified : Bool) → ℕ → World → World
  unfolding left_if
  end_by true i w = w
  end_by false i w =
      let c = w.connections i in
      with_effect_if c.delivered (on_disconnect i)
        (left_if c.held c.session_id i (with_connection i (record c { notified = true }) w))

  unfoldable pub end_session : ℕ → World → World
  unfolding end_by
  end_session i w = end_by (w.connections i).notified i w

  abbrev pub end_if : Bool → ℕ → World → World
  unfolding end_session
  end_if true i w = end_session i w
  end_if false i w = w

  -- The `close` event of a socket.
  unfoldable pub on_close : ℕ → World → World
  unfolding end_if
  on_close i w =
      let c = w.connections i in
      end_if c.settled i (with_connection i (record c { closed = true }) w)

  -- What follows the eviction.
  unfoldable pub finish_ending : ℕ → World → World
  unfolding end_session
  finish_ending i w =
      end_session i (with_connection i (record (w.connections i) { ending = false }) w)

  -- Joined, and remembered as this connection's.
  unfoldable pub taken : ℕ → Text → World → World
  unfolding join
  taken i id w = join id i (with_connection i (record (w.connections i) { held = true }) w)

  -- By whether the socket has closed, the session is a resumed one, and how the connected frame comes
  -- out.
  unfoldable pub settle_on : (closed resumed : Bool) (setup : Setup) → ℕ → Text → World → World
  unfolding taken begin_ending deliver give_up
  settle_on true true setup i id w = begin_ending i w
  settle_on true false setup i id w = begin_ending i (taken i id w)
  settle_on false resumed sent i id w = deliver i (taken i id w)
  settle_on false resumed unsent i id w = begin_ending i (taken i id w)
  settle_on false resumed unprepared i id w = give_up i (taken i id w)

  -- The store has answered with a session.
  unfoldable pub settle : ℕ → Text → (resumed : Bool) (setup : Setup) → World → World
  unfolding settle_on
  settle i id resumed setup w =
      let c = record (w.connections i) { session_id = id; resumed = resumed; settled = true } in
      settle_on c.closed resumed setup i id (with_connection i c w)

  -- The steps of the sockets, each on a connection for which it is next.
  pub data Step (w : World) : World → Type 0 where
    closes : (i : ℕ) → (w.connections i).closed ≡ false → Step w (on_close i w)
    settles :
        (i : ℕ) (id : Text) (resumed : Bool) (setup : Setup)
        → (w.connections i).settled ≡ false
        → Step w (settle i id resumed setup w)
    fails : (i : ℕ) → (w.connections i).settled ≡ false → Step w (settle_failed i w)
    ends : (i : ℕ) → (w.connections i).ending ≡ true → Step w (finish_ending i w)

  pub data Reach : World → Type 0 where
    start : Reach new_world
    then_step : {w v : World} → Reach w → Step w v → Reach v
