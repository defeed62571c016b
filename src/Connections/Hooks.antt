-- ===== src/Connections/Hooks.antt =====
-- transport/ws/connectionHandler.ts: what the consumer's hooks hear of a socket, and whose session is evicted.
use halengine.Prelude.{
  ℕ, ◌≤◌, ◌≡◌, refl, sym, ap, subst, ◌∙◌, Text, Bool, true, false, not, ◌&&◌, List, ◌∷◌, if-either,
  ◌==◌, ==_iff, Bool-cases, inl, inr, arith,
}
use halengine.Connections.{
  Setup, sent, unsent, unprepared, give_up, ExtWebSocket, Connection, Effect, on_connect,
  on_disconnect, evicts, World, includes, with_connection, with_effect_if, begin_ending, deliver,
  settle_failed, lend, join, leave, left_if, end_by, end_session, taken, settle_on, end_if,
  on_close, finish_ending, settle, Step, closes, settles, fails, ends, Reach, start, then_step,
}
use halengine.Connections.Alike.{Home, Alike-connections}
use halengine.Connections.Closing.{connection_self, effect_connections, left_if_connections}
use halengine.Connections.Safety.{Reach-Home, mover, step-Alike}
use halengine.Connections.Told.{
  one_if, connects, disconnects, evictions, added, Told, Quiet, effect_added, added-Quiet,
  closed_over, undelivered-Told, closes-Told, evicts-Told, settled-Told, delivers-Told,
}

module _ (sockets : ℕ → ExtWebSocket) where
  left_if_effects :
      (b : Bool) (id : Text) (i : ℕ) (w : World) → (left_if sockets b id i w).effects ≡ w.effects
  unfolding left_if leave lend
  left_if_effects true id i w =
      if-either (λ (v : World). v.effects ≡ w.effects) (includes i (w.open_sockets id)) (λ _. refl)
        (λ _. refl)
  left_if_effects false id i w = refl

  -- The end of a connection, by whether it had ended before.
  end_session-either :
      (P : Connection → List Effect → Type 0) (i : ℕ) (w : World)
      → ((w.connections i).notified ≡ true → P (w.connections i) w.effects)
      → ((w.connections i).notified ≡ false
          → P
              (record (w.connections i) { notified = true })
              (added (w.connections i).delivered (on_disconnect i) w.effects))
      → P ((end_session sockets i w).connections i) (end_session sockets i w).effects
  unfolding end_session end_by
  end_session-either P i w h k = by_notified c.notified refl
    where
      c : Connection
      c = w.connections i

      w1 : World
      w1 = with_connection i (record c { notified = true }) w

      w2 : World
      w2 = left_if sockets c.held c.session_id i w1

      by_notified :
          (b : Bool)
          → c.notified ≡ b
          → P ((end_by sockets b i w).connections i) (end_by sockets b i w).effects
      by_notified true e = h e
      by_notified false e =
          subst (λ f. P (f i) (with_effect_if c.delivered (on_disconnect i) w2).effects)
            (sym (
              effect_connections c.delivered (on_disconnect i) w2
              ∙ left_if_connections sockets c.held c.session_id i w1))
            (subst (λ z. P z (with_effect_if c.delivered (on_disconnect i) w2).effects)
              (sym (connection_self i (record c { notified = true }) w))
              (subst (P (record c { notified = true }))
                (sym (
                  effect_added c.delivered (on_disconnect i) w2
                  ∙ ap (added c.delivered (on_disconnect i))
                      (left_if_effects c.held c.session_id i w1)))
                (k e)))

  begin_ending-either :
      (P : Connection → List Effect → Type 0) (i : ℕ) (w : World)
      → P
          (record (w.connections i) { held = true; ending = true })
          (added (not (w.connections i).resumed) (evicts i) w.effects)
      → P ((begin_ending i w).connections i) (begin_ending i w).effects
  unfolding begin_ending
  begin_ending-either P i w h =
      let c = record (w.connections i) { held = true; ending = true } in
      let b = not (w.connections i).resumed in
      let w1 = with_connection i c w in
      subst (λ f. P (f i) (with_effect_if b (evicts i) w1).effects)
        (sym (effect_connections b (evicts i) w1))
        (subst (λ z. P z (with_effect_if b (evicts i) w1).effects) (sym (connection_self i c w))
          (subst (P c) (sym (effect_added b (evicts i) w1)) h))

  ended_with :
      (i : ℕ) (c : Connection) (w : World)
      → (c.notified ≡ true → Told i c w.effects)
      → (c.notified ≡ false
          → Told i (record c { notified = true }) (added c.delivered (on_disconnect i) w.effects))
      → Told i
          ((end_session sockets i (with_connection i c w)).connections i)
          (end_session sockets i (with_connection i c w)).effects
  ended_with i c w =
      let v = with_connection i c w in
      subst
        (λ (z : Connection).
          (z.notified ≡ true → Told i z w.effects)
          → (z.notified ≡ false
              → Told i (record z { notified = true })
                  (added z.delivered (on_disconnect i) w.effects))
          → Told i ((end_session sockets i v).connections i) (end_session sockets i v).effects)
        (connection_self i c w) (end_session-either (Told i) i v)

  abbrev ToldIn : ℕ → World → Type 0
  ToldIn i w = Told i (w.connections i) w.effects

  closed-ToldIn :
      (i : ℕ) (w : World)
      → Home i w
      → ToldIn i w
      → (w.connections i).closed ≡ false
      → ToldIn i (on_close sockets i w)
  unfolding on_close end_if
  closed-ToldIn i w a h e = by_settled c.settled refl
    where
      c : Connection
      c = w.connections i

      z : Connection
      z = record c { closed = true }

      by_delivered :
          (b : Bool)
          → c.delivered ≡ b
          → c.settled ≡ true
          → Told i (record z { notified = true }) (added b (on_disconnect i) w.effects)
      by_delivered true d s = closes-Told i c w.effects h e d s
      by_delivered false d s =
          undelivered-Told i c (record z { notified = true }) w.effects h d d refl h.unsettled

      by_settled :
          (b : Bool) → c.settled ≡ b → ToldIn i (end_if sockets b i (with_connection i z w))
      by_settled true s =
          ended_with i z w
            (λ n.
              let d = closed_over i c w.effects h e n in
              undelivered-Told i c z w.effects h d d refl h.unsettled)
            (λ n. by_delivered c.delivered refl s)
      by_settled false s =
          let d = (a.early s).0 in
          subst (λ y. Told i y w.effects) (sym (connection_self i z w))
            (undelivered-Told i c z w.effects h d d refl h.unsettled)

  finished-ToldIn :
      (i : ℕ) (w : World)
      → Home i w
      → ToldIn i w
      → (w.connections i).ending ≡ true
      → ToldIn i (finish_ending sockets i w)
  unfolding finish_ending
  finished-ToldIn i w a h e =
      let c = w.connections i in
      let z = record c { ending = false } in
      let d = a.undelivered e in
      ended_with i z w (λ n. undelivered-Told i c z w.effects h d d refl h.unsettled)
        (λ n.
          subst (λ b. Told i (record z { notified = true }) (added b (on_disconnect i) w.effects))
            (sym d)
            (undelivered-Told i c (record z { notified = true }) w.effects h d d refl h.unsettled))

  failed-ToldIn :
      (i : ℕ) (w : World)
      → Home i w
      → ToldIn i w
      → (w.connections i).settled ≡ false
      → ToldIn i (settle_failed i w)
  unfolding settle_failed
  failed-ToldIn i w a h s =
      let c = w.connections i in
      let z = record c { settled = true } in
      let d = (a.early s).0 in
      subst (λ y. Told i y w.effects) (sym (connection_self i z w))
        (undelivered-Told i c z w.effects h d d refl (λ u. h.unsettled s))

  -- What a connection was when its store was asked, and is when it answers.
  abbrev Answered : ℕ → Connection → Bool → World → Type 0
  Answered i c closed v =
      Told i c v.effects
      × (c.settled ≡ false)
      × (c.delivered ≡ false)
      × ((v.connections i).settled ≡ true)
      × ((v.connections i).delivered ≡ false)
      × ((v.connections i).notified ≡ false)
      × ((v.connections i).closed ≡ closed)

  begun-ToldIn :
      (i : ℕ) (c : Connection) (closed : Bool) (v : World)
      → Answered i c closed v
      → ToldIn i (begin_ending i v)
  begun-ToldIn i c closed v (h, s, d, t, k, n, e) = begin_ending-either (Told i) i v (
      evicts-Told i c (record (v.connections i) { held = true; ending = true }) v.effects h s d k t)

  taken-Answered :
      (i : ℕ) (c : Connection) (closed : Bool) (id : Text) (v : World)
      → Answered i c closed v
      → Answered i c closed (taken sockets i id v)
  unfolding taken join lend
  taken-Answered i c closed id v (h, s, d, t, k, n, e) =
      let q = connection_self i (record (v.connections i) { held = true }) v in
      (
        h,
        s,
        d,
        ap (λ z. z.settled) q ∙ t,
        ap (λ z. z.delivered) q ∙ k,
        ap (λ z. z.notified) q ∙ n,
        ap (λ z. z.closed) q ∙ e,
      )

  settle_on-ToldIn :
      (closed resumed : Bool) (setup : Setup) (i : ℕ) (id : Text) (c : Connection) (v : World)
      → Answered i c closed v
      → ToldIn i (settle_on sockets closed resumed setup i id v)
  unfolding settle_on deliver give_up
  settle_on-ToldIn true true setup i id c v a = begun-ToldIn i c true v a
  settle_on-ToldIn true false setup i id c v a =
      begun-ToldIn i c true (taken sockets i id v) (taken-Answered i c true id v a)
  settle_on-ToldIn false resumed unsent i id c v a =
      begun-ToldIn i c false (taken sockets i id v) (taken-Answered i c false id v a)
  settle_on-ToldIn false resumed unprepared i id c v a =
      let u = taken sockets i id v in
      let (h, s, d, t, k, n, e) = taken-Answered i c false id v a in
      let z = record (u.connections i) { broken = true } in
      subst (λ y. Told i y u.effects) (sym (connection_self i z u))
        (settled-Told i c z u.effects h s d k t)
  settle_on-ToldIn false resumed sent i id c v a =
      let u = taken sockets i id v in
      let (h, s, d, t, k, n, e) = taken-Answered i c false id v a in
      let z = record (u.connections i) { delivered = true } in
      subst (λ y. Told i y (on_connect i ∷ u.effects)) (sym (connection_self i z u))
        (delivers-Told i c z u.effects h s d refl e n t)

  settled-ToldIn :
      (i : ℕ) (id : Text) (resumed : Bool) (setup : Setup) (w : World)
      → Home i w
      → ToldIn i w
      → (w.connections i).settled ≡ false
      → ToldIn i (settle sockets i id resumed setup w)
  unfolding settle
  settled-ToldIn i id resumed setup w a h s =
      let c = record (w.connections i) { session_id = id; resumed = resumed; settled = true } in
      let q = connection_self i c w in
      let (d, n, u) = a.early s in
      settle_on-ToldIn c.closed resumed setup i id (w.connections i) (with_connection i c w) (
        h,
        s,
        d,
        ap (λ z. z.settled) q,
        ap (λ z. z.delivered) q ∙ d,
        ap (λ z. z.notified) q ∙ n,
        ap (λ z. z.closed) q,
      )

  moved-ToldIn :
      (w v : World) (s : Step sockets w v)
      → Home (mover sockets s) w
      → ToldIn (mover sockets s) w
      → ToldIn (mover sockets s) v
  unfolding mover
  moved-ToldIn w v (closes i e) a h = closed-ToldIn i w a h e
  moved-ToldIn w v (settles i id resumed setup e) a h = settled-ToldIn i id resumed setup w a h e
  moved-ToldIn w v (fails i e) a h = failed-ToldIn i w a h e
  moved-ToldIn w v (ends i e) a h = finished-ToldIn i w a h e

  ended-Quiet :
      (j i : ℕ) (w : World) → (i == j) ≡ false → Quiet j w.effects (end_session sockets i w).effects
  ended-Quiet j i w d =
      end_session-either (λ c es. Quiet j w.effects es) i w
        (λ n. unfold Quiet in (refl, refl, refl))
        (λ n. (added-Quiet j i (w.connections i).delivered w.effects d).0)

  begun-Quiet :
      (j i : ℕ) (w : World) → (i == j) ≡ false → Quiet j w.effects (begin_ending i w).effects
  begun-Quiet j i w d =
      begin_ending-either (λ c es. Quiet j w.effects es) i w
        (added-Quiet j i (not (w.connections i).resumed) w.effects d).1

  settle_on-Quiet :
      (closed resumed : Bool) (setup : Setup) (j i : ℕ) (id : Text) (w : World)
      → (i == j) ≡ false
      → Quiet j w.effects (settle_on sockets closed resumed setup i id w).effects
  unfolding settle_on deliver give_up taken join lend
  settle_on-Quiet true true setup j i id w d = begun-Quiet j i w d
  settle_on-Quiet true false setup j i id w d = begun-Quiet j i (taken sockets i id w) d
  settle_on-Quiet false resumed unprepared j i id w d = unfold Quiet in (refl, refl, refl)
  settle_on-Quiet false resumed unsent j i id w d = begun-Quiet j i (taken sockets i id w) d
  settle_on-Quiet false resumed sent j i id w d =
      unfold Quiet connects disconnects evictions in (rw d (omega arith), refl, refl)

  step-Quiet :
      (w v : World) (s : Step sockets w v) (j : ℕ)
      → (mover sockets s == j) ≡ false
      → Quiet j w.effects v.effects
  unfolding mover on_close settle settle_failed finish_ending end_if
  step-Quiet w v (closes i e) j d = by_settled (w.connections i).settled
    where
      w1 : World
      w1 = with_connection i (record (w.connections i) { closed = true }) w

      by_settled : (b : Bool) → Quiet j w.effects (end_if sockets b i w1).effects
      by_settled true = ended-Quiet j i w1 d
      by_settled false = unfold Quiet in (refl, refl, refl)
  step-Quiet w v (settles i id resumed setup e) j d =
      let c = record (w.connections i) { session_id = id; resumed = resumed; settled = true } in
      settle_on-Quiet c.closed resumed setup j i id (with_connection i c w) d
  step-Quiet w v (fails i e) j d = unfold Quiet in (refl, refl, refl)
  step-Quiet w v (ends i e) j d =
      ended-Quiet j i (with_connection i (record (w.connections i) { ending = false }) w) d

  Quiet-Told :
      (j : ℕ) (c : Connection) (es fs : List Effect) → Quiet j es fs → Told j c es → Told j c fs
  unfolding Quiet
  Quiet-Told j c es fs (a, b, e) h = record {
    heard = a ∙ h.heard;
    parted = b ∙ h.parted;
    evicted = omega (arith, e, h.evicted);
    unheard = λ k. h.unheard (sym e ∙ k);
    unsettled = λ k. e ∙ h.unsettled k;
    over = h.over;
  }

  Reach-ToldIn : (w : World) → Reach sockets w → (j : ℕ) → ToldIn j w
  unfolding connects disconnects evictions
  Reach-ToldIn w start = λ j. record {
    heard = refl;
    parted = refl;
    evicted = omega arith;
    unheard = λ e. (refl, refl);
    unsettled = λ e. refl;
    over = λ e. absurd (cc e);
  }
  Reach-ToldIn w (then_step {w = u} r s) = λ j. elim (Bool-cases (mover sockets s == j)) [
    | inl m ↦
        subst (λ z. ToldIn z w) ((==_iff (mover sockets s) j).0 m)
          (moved-ToldIn u w s (Reach-Home sockets u r (mover sockets s))
            (Reach-ToldIn u r (mover sockets s)))
    | inr d ↦
        subst (λ c. Told j c w.effects) (Alike-connections j u w (step-Alike sockets u w s j d))
          (Quiet-Told j (u.connections j) u.effects w.effects (step-Quiet u w s j d)
            (Reach-ToldIn u r j))
  ]

  -- In every state that the sockets' steps reach, whatever their order, and for every socket: the consumer has
  -- heard of its connection once if it was delivered and not at all otherwise; it has heard of its end once if
  -- it was delivered and has closed, and not at all otherwise; and its session was evicted at most once, and
  -- only when it was made for this socket and never delivered.
  pub hooks_paired :
      (w : World) (i : ℕ)
      → Reach sockets w
      → (connects i w.effects ≡ one_if (w.connections i).delivered)
        × (disconnects i w.effects
            ≡ one_if ((w.connections i).delivered && (w.connections i).closed))
        × (evictions i w.effects ≤ 1)
        × (evictions i w.effects ≡ 1
            → ((w.connections i).delivered ≡ false) × ((w.connections i).resumed ≡ false))
  hooks_paired w i r = let h = Reach-ToldIn w r i in (h.heard, h.parted, h.evicted, h.unheard)
