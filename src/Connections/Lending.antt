-- ===== src/Connections/Lending.antt =====
-- transport/ws/connectionHandler.ts: whose credentials a session carries.
use halengine.Prelude.{
  ℕ, ◌≡◌, refl, subst, Text, text_eq, Bool, true, false, not, some, List, [], ◌∷◌, ◌++◌, if-either,
  Bool-cases, inl, inr,
}
use halengine.Connections.{
  Setup, sent, unsent, unprepared, give_up, ExtWebSocket, Effect, World, includes, without, newest,
  with_open, with_connection, with_effect_if, begin_ending, deliver, settle_failed, lent_by, lend,
  join, leave, left_if, end_by, end_session, taken, settle_on, on_disconnect, evicts, end_if,
  on_close, finish_ending, settle, Step, closes, settles, fails, ends, Reach, start, then_step,
}

newest-append : (is : List ℕ) (i : ℕ) → newest (is ++ i ∷ []) ≡ some i
unfolding newest
newest-append [] i = refl
newest-append (j ∷ []) i = refl
newest-append (j ∷ k ∷ is) i = newest-append (k ∷ is) i

module _ (sockets : ℕ → ExtWebSocket) where
  -- Each session carries what its newest open socket lends it.
  abbrev pub Lends : World → Type 0
  Lends w = (id : Text) → w.lent id ≡ lent_by sockets (newest (w.open_sockets id))

  lend-Lends :
      (id : Text) (is : List ℕ) (w : World)
      → Lends w
      → Lends (lend sockets id (newest is) (with_open id is w))
  unfolding lend
  lend-Lends id is w h k = elim (Bool-cases (text_eq id k)) [
    | inl e ↦ rw e refl
    | inr e ↦ rw e (h k)
  ]

  join-Lends : (id : Text) (i : ℕ) (w : World) → Lends w → Lends (join sockets id i w)
  unfolding join
  join-Lends id i w h =
      subst (λ o. Lends (lend sockets id o (with_open id (w.open_sockets id ++ i ∷ []) w)))
        (newest-append (w.open_sockets id) i) (lend-Lends id (w.open_sockets id ++ i ∷ []) w h)

  leave-Lends : (id : Text) (i : ℕ) (w : World) → Lends w → Lends (leave sockets id i w)
  unfolding leave
  leave-Lends id i w h =
      if-either Lends (includes i (w.open_sockets id))
        (λ _. lend-Lends id (without i (w.open_sockets id)) w h) (λ _. h)

  effect-Lends : (b : Bool) (e : Effect) (w : World) → Lends w → Lends (with_effect_if b e w)
  effect-Lends true e w h = h
  effect-Lends false e w h = h

  left_if-Lends :
      (b : Bool) (id : Text) (i : ℕ) (w : World) → Lends w → Lends (left_if sockets b id i w)
  unfolding left_if
  left_if-Lends true id i w h = leave-Lends id i w h
  left_if-Lends false id i w h = h

  end_session-Lends : (i : ℕ) (w : World) → Lends w → Lends (end_session sockets i w)
  unfolding end_session end_by
  end_session-Lends i w h = by_notified (w.connections i).notified
    where
      by_notified : (b : Bool) → Lends (end_by sockets b i w)
      by_notified true = h
      by_notified false = effect-Lends (w.connections i).delivered (on_disconnect i) _ (
          left_if-Lends (w.connections i).held (w.connections i).session_id i
            (with_connection i (record (w.connections i) { notified = true }) w) h)

  begin_ending-Lends : (i : ℕ) (w : World) → Lends w → Lends (begin_ending i w)
  unfolding begin_ending
  begin_ending-Lends i w h =
      effect-Lends (not (w.connections i).resumed) (evicts i)
        (with_connection i (record (w.connections i) { held = true; ending = true }) w) h

  taken-Lends : (i : ℕ) (id : Text) (w : World) → Lends w → Lends (taken sockets i id w)
  unfolding taken
  taken-Lends i id w h =
      join-Lends id i (with_connection i (record (w.connections i) { held = true }) w) h

  settle_on-Lends :
      (closed resumed : Bool) (setup : Setup) (i : ℕ) (id : Text) (w : World)
      → Lends w
      → Lends (settle_on sockets closed resumed setup i id w)
  unfolding settle_on deliver give_up
  settle_on-Lends true true setup i id w h = begin_ending-Lends i w h
  settle_on-Lends true false setup i id w h =
      begin_ending-Lends i (taken sockets i id w) (taken-Lends i id w h)
  settle_on-Lends false resumed sent i id w h = taken-Lends i id w h
  settle_on-Lends false resumed unprepared i id w h = taken-Lends i id w h
  settle_on-Lends false resumed unsent i id w h =
      begin_ending-Lends i (taken sockets i id w) (taken-Lends i id w h)

  Lends-step : (w v : World) → Lends w → Step sockets w v → Lends v
  unfolding on_close finish_ending settle_failed settle end_if
  Lends-step w v h (closes i e) = closed_by (w.connections i).settled
    where
      closed_by :
          (b : Bool)
          → Lends (
              end_if sockets b i (with_connection i (record (w.connections i) { closed = true }) w))
      closed_by true =
          end_session-Lends i (with_connection i (record (w.connections i) { closed = true }) w) h
      closed_by false = h
  Lends-step w v h (settles i id resumed setup e) =
      settle_on-Lends (w.connections i).closed resumed setup i id
        (with_connection i
          (record (w.connections i) { session_id = id; resumed = resumed; settled = true }) w)
        h
  Lends-step w v h (fails i e) = h
  Lends-step w v h (ends i e) =
      end_session-Lends i (with_connection i (record (w.connections i) { ending = false }) w) h

  pub Reach-Lends : (w : World) → Reach sockets w → Lends w
  unfolding newest lent_by
  Reach-Lends w start = λ id. refl
  Reach-Lends w (then_step {w = u} r s) = Lends-step u w (Reach-Lends u r) s
