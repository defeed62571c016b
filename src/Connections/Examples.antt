-- ===== src/Connections/Examples.antt =====
-- Tests of the connections and the witnesses of their theorems.
use halengine.Prelude.{
  ◌≤◌, ◌&&◌, ℕ, zero, suc, ◌≡◌, refl, Text, text, true, false, none, some, List, [], ◌∷◌,
}
use halengine.Connections.{
  sent, ExtWebSocket, on_connect, on_disconnect, evicts, World, includes, without, newest,
  begin_ending, deliver, new_world, lent_by, lend, join, leave, end_by, end_session, taken,
  settle_on, on_close, finish_ending, settle, closes, settles, Reach, start, then_step,
}
use halengine.Connections.Alike.{Placing}
use halengine.Connections.Told.{one_if, connects, disconnects, evictions}
use halengine.Connections.Hooks.{hooks_paired}
use halengine.Connections.Safety.{credentials_of_newest}

-- A phone and a laptop of one user.
abbrev sockets : ℕ → ExtWebSocket
sockets zero = record {
  auth_headers = some (record { cookie = some (text "phone"); authorization = none; host = none });
  user = none;
}
sockets (suc i) = record {
  auth_headers = some (record { cookie = some (text "laptop"); authorization = none; host = none });
  user = none;
}

abbrev s1 : Text
s1 = text "s1"

-- The phone makes a session, and the laptop rejoins it.
abbrev both_open : World
both_open = settle sockets 1 s1 true sent (settle sockets 0 s1 false sent new_world)

-- Then the laptop closes.
abbrev one_left : World
one_left = on_close sockets 1 both_open

abbrev Serves : World → List ℕ → Type 0
Serves w ids = (w.open_sockets s1 ≡ ids) × (w.lent s1 ≡ lent_by sockets (newest ids))

both-Serves : Serves both_open (0 ∷ 1 ∷ [])
unfolding settle settle_on taken join lend deliver newest lent_by
both-Serves = (refl, refl)

phone-Serves : Serves one_left (0 ∷ [])
unfolding settle settle_on taken join lend deliver newest lent_by on_close end_session end_by leave
    includes without
phone-Serves = (refl, refl)

-- The phone closes too: the session keeps nobody's credentials, and both disconnects are told.
none-Serves : Serves (on_close sockets 0 one_left) []
unfolding settle settle_on taken join lend deliver newest lent_by on_close end_session end_by leave
    includes without
none-Serves = (refl, refl)

told :
    (on_close sockets 0 one_left).effects
    ≡ on_disconnect 0 ∷ on_disconnect 1 ∷ on_connect 1 ∷ on_connect 0 ∷ []
unfolding settle settle_on taken join lend deliver newest lent_by on_close end_session end_by leave
    includes without
told = refl

-- A socket that closes before its session is made: the session is evicted, nobody hears of it, and it keeps
-- no credentials.
abbrev early : World
early = finish_ending sockets 0 (settle sockets 0 s1 false sent (on_close sockets 0 new_world))

early-Serves : (early.effects ≡ evicts 0 ∷ []) × Serves early []
unfolding settle settle_on taken join lend begin_ending finish_ending newest lent_by on_close
    end_session end_by leave includes without
early-Serves = (refl, (refl, refl))

one_left-Reach : Reach sockets one_left
unfolding settle settle_on taken join lend deliver
one_left-Reach =
    then_step
      (then_step (then_step start (settles 0 s1 false sent refl)) (settles 1 s1 true sent refl))
      (closes 1 refl)

credentials_of_newest_example :
    ((id : Text) → one_left.lent id ≡ lent_by sockets (newest (one_left.open_sockets id)))
    × ((i : ℕ) (id : Text)
        → includes i (one_left.open_sockets id) ≡ true
        → Placing (one_left.connections i) id)
    × ((i : ℕ)
        → (one_left.connections i).delivered ≡ true
        → (one_left.connections i).notified ≡ false
        → includes i (one_left.open_sockets (one_left.connections i).session_id) ≡ true)
credentials_of_newest_example = credentials_of_newest sockets one_left one_left-Reach

hooks_paired_example :
    (connects 1 one_left.effects ≡ one_if (one_left.connections 1).delivered)
    × (disconnects 1 one_left.effects
        ≡ one_if ((one_left.connections 1).delivered && (one_left.connections 1).closed))
    × (evictions 1 one_left.effects ≤ 1)
    × (evictions 1 one_left.effects ≡ 1
        → ((one_left.connections 1).delivered ≡ false) × ((one_left.connections 1).resumed ≡ false))
hooks_paired_example = hooks_paired sockets one_left 1 one_left-Reach
