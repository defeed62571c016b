-- ===== src/Connections/Safety.antt =====
-- transport/ws/connectionHandler.ts: which sockets a session counts as open.
use halengine.Prelude.{
  ℕ, ◌≡◌, refl, sym, ap, subst, ◌∙◌, Text, text_eq, text_eq→eq, text_eq_refl, Bool, true, false,
  not, [], if-either, ◌==◌, ==_iff, Bool-cases, inl, inr,
}
use halengine.Connections.{
  Setup, sent, unsent, unprepared, give_up, ExtWebSocket, Connection, evicts, World, includes,
  newest, with_connection, with_effect_if, begin_ending, deliver, settle_failed, lent_by, lend,
  join, end_session, taken, settle_on, end_if, on_close, finish_ending, settle, Step, closes,
  settles, fails, ends, Reach, start, then_step, new_connection,
}
use halengine.Connections.Lending.{Reach-Lends}
use halengine.Connections.Alike.{
  includes-append_self, Placing, AtHome, Home, Home-Alike, Alike-trans, Alike, end_if-Alike,
  connection-Alike, end_session-Alike, settle_on-Alike,
}
use halengine.Connections.Closing.{
  Absent, connection_self, effect_connections, effect_open, away-AtHome, ended-Home,
}

module _ (sockets : ℕ → ExtWebSocket) where
  begun-Home :
      (i : ℕ) (w : World)
      → (w.connections i).settled ≡ true
      → (w.connections i).delivered ≡ false
      → ((k : Text)
          → includes i (w.open_sockets k) ≡ true
          → ((w.connections i).session_id ≡ k) × ((w.connections i).notified ≡ false))
      → Home i (begin_ending i w)
  unfolding begin_ending
  begun-Home i w s d only =
      let c = record (w.connections i) { held = true; ending = true } in
      let b = not (w.connections i).resumed in
      subst (λ f. AtHome (f i) i (with_effect_if b (evicts i) (with_connection i c w)).open_sockets)
        (sym (effect_connections b (evicts i) (with_connection i c w)))
        (subst (λ z. AtHome z i (with_effect_if b (evicts i) (with_connection i c w)).open_sockets)
          (sym (connection_self i c w))
          (subst (AtHome c i) (sym (effect_open b (evicts i) (with_connection i c w))) (record {
            placed = λ id h. ((only id h).0, s, refl, (only id h).1, λ k. refl, λ k. inl refl);
            present = λ k n. absurd (cc (d, k));
            early = λ k. absurd (cc (s, k));
            undelivered = λ k. d;
          })))

  taken-only :
      (i : ℕ) (id : Text) (w : World)
      → Absent i w.open_sockets
      → (k : Text) → includes i ((taken sockets i id w).open_sockets k) ≡ true
      → id ≡ k
  unfolding taken join lend
  taken-only i id w a k =
      if-either (λ l. includes i l ≡ true → id ≡ k) (text_eq id k) (λ e h. text_eq→eq id k e)
        (λ d h. absurd (cc (h, a k)))

  taken-in :
      (i : ℕ) (id : Text) (w : World) → includes i ((taken sockets i id w).open_sockets id) ≡ true
  unfolding taken join lend
  taken-in i id w = rw (text_eq_refl id) (includes-append_self i (w.open_sockets id))

  pub taken_self :
      (i : ℕ) (id : Text) (w : World)
      → (taken sockets i id w).connections i ≡ record (w.connections i) { held = true }
  unfolding taken join lend
  taken_self i id w = connection_self i (record (w.connections i) { held = true }) w

  -- What a connection is when its store answers.
  abbrev Fresh : ℕ → Text → World → Type 0
  Fresh i id w =
      ((w.connections i).session_id ≡ id)
      × ((w.connections i).settled ≡ true)
      × ((w.connections i).delivered ≡ false)
      × ((w.connections i).notified ≡ false)
      × ((w.connections i).ending ≡ false)
      × Absent i w.open_sockets

  taken_begun-Home :
      (i : ℕ) (id : Text) (w : World)
      → Fresh i id w
      → Home i (begin_ending i (taken sockets i id w))
  taken_begun-Home i id w (e, s, d, n, u, a) =
      let c = taken_self i id w in
      begun-Home i (taken sockets i id w) (ap (λ z. z.settled) c ∙ s) (ap (λ z. z.delivered) c ∙ d)
        (λ k h.
          (ap (λ z. z.session_id) c ∙ e ∙ taken-only i id w a k h, ap (λ z. z.notified) c ∙ n))

  settle_on-Home :
      (closed resumed : Bool) (setup : Setup) (i : ℕ) (id : Text) (w : World)
      → (w.connections i).closed ≡ closed
      → Fresh i id w
      → Home i (settle_on sockets closed resumed setup i id w)
  unfolding settle_on deliver give_up
  settle_on-Home true true setup i id w q (e, s, d, n, u, a) =
      begun-Home i w s d (λ k h. absurd (cc (h, a k)))
  settle_on-Home true false setup i id w q f = taken_begun-Home i id w f
  settle_on-Home false resumed unsent i id w q f = taken_begun-Home i id w f
  settle_on-Home false resumed sent i id w q (e, s, d, n, u, a) =
      let v = taken sockets i id w in
      let c = record (w.connections i) { held = true; delivered = true } in
      subst (λ z. AtHome z i v.open_sockets)
        (sym (
          connection_self i (record (v.connections i) { delivered = true }) v
          ∙ ap (λ (z : Connection). record z { delivered = true }) (taken_self i id w)))
        (record {
          placed = λ k h. (
            e ∙ taken-only i id w a k h,
            s,
            refl,
            n,
            λ g. absurd (cc (q, g)),
            λ g. absurd (cc g),
          );
          present =
              λ g m. subst (λ z. includes i (v.open_sockets z) ≡ true) (sym e) (taken-in i id w);
          early = λ g. absurd (cc (s, g));
          undelivered = λ g. absurd (cc (u, g));
        })
  settle_on-Home false resumed unprepared i id w q (e, s, d, n, u, a) =
      let v = taken sockets i id w in
      subst (λ z. AtHome z i v.open_sockets)
        (sym (
          connection_self i (record (v.connections i) { broken = true }) v
          ∙ ap (λ (z : Connection). record z { broken = true }) (taken_self i id w)))
        (record {
          placed = λ k h.
              (e ∙ taken-only i id w a k h, s, refl, n, λ g. absurd (cc (q, g)), λ g. inr refl);
          present = λ g m. absurd (cc (d, g));
          early = λ g. absurd (cc (s, g));
          undelivered = λ g. d;
        })

  unsettled-Absent :
      (i : ℕ) (w : World) → Home i w → (w.connections i).settled ≡ false → Absent i w.open_sockets
  unsettled-Absent i w h s id = elim (Bool-cases (includes i (w.open_sockets id))) [
    | inl e ↦ absurd (cc (s, (h.placed id e).1))
    | inr e ↦ e
  ]

  closed-Home : (i : ℕ) (w : World) → Home i w → Home i (on_close sockets i w)
  unfolding on_close end_if
  closed-Home i w h = by_settled (w.connections i).settled refl
    where
      c : Connection
      c = record (w.connections i) { closed = true }

      w1 : World
      w1 = with_connection i c w

      by_settled : (b : Bool) → (w.connections i).settled ≡ b → Home i (end_if sockets b i w1)
      by_settled true s =
          subst
            (λ z.
              z.settled ≡ true
              → ((k : Text)
                  → includes i (w.open_sockets k) ≡ true
                  → (z.session_id ≡ k) × (z.held ≡ true) × (z.notified ≡ false))
              → (z.ending ≡ true → z.delivered ≡ false)
              → Home i (end_session sockets i w1))
            (connection_self i c w) (ended-Home sockets i w1) s
            (λ k e. let (p, q, r, n, g, u) = h.placed k e in (p, r, n)) h.undelivered
      by_settled false s =
          let (d, n, u) = h.early s in
          subst (λ z. AtHome z i w.open_sockets) (sym (connection_self i c w))
            (away-AtHome c i w.open_sockets (unsettled-Absent i w h s) (λ k. absurd (cc (d, k)))
              h.early h.undelivered)

  settled-Home :
      (i : ℕ) (id : Text) (resumed : Bool) (setup : Setup) (w : World)
      → Home i w
      → (w.connections i).settled ≡ false
      → Home i (settle sockets i id resumed setup w)
  unfolding settle
  settled-Home i id resumed setup w h s =
      let c = record (w.connections i) { session_id = id; resumed = resumed; settled = true } in
      let (d, n, u) = h.early s in
      let self_lem = connection_self i c w in
      settle_on-Home c.closed resumed setup i id (with_connection i c w)
        (ap (λ z. z.closed) self_lem)
        (
          ap (λ z. z.session_id) self_lem,
          ap (λ z. z.settled) self_lem,
          ap (λ z. z.delivered) self_lem ∙ d,
          ap (λ z. z.notified) self_lem ∙ n,
          ap (λ z. z.ending) self_lem ∙ u,
          unsettled-Absent i w h s,
        )

  failed-Home :
      (i : ℕ) (w : World)
      → Home i w
      → (w.connections i).settled ≡ false
      → Home i (settle_failed i w)
  unfolding settle_failed
  failed-Home i w h s =
      let c = record (w.connections i) { settled = true } in
      let (d, n, u) = h.early s in
      subst (λ z. AtHome z i w.open_sockets) (sym (connection_self i c w))
        (away-AtHome c i w.open_sockets (unsettled-Absent i w h s) (λ k. absurd (cc (d, k)))
          (λ k. absurd (cc k)) h.undelivered)

  finished-Home :
      (i : ℕ) (w : World)
      → Home i w
      → (w.connections i).ending ≡ true
      → Home i (finish_ending sockets i w)
  unfolding finish_ending
  finished-Home i w h e =
      let c = record (w.connections i) { ending = false } in
      subst
        (λ z.
          z.settled ≡ true
          → ((k : Text)
              → includes i (w.open_sockets k) ≡ true
              → (z.session_id ≡ k) × (z.held ≡ true) × (z.notified ≡ false))
          → (z.ending ≡ true → z.delivered ≡ false)
          → Home i (end_session sockets i (with_connection i c w)))
        (connection_self i c w) (ended-Home sockets i (with_connection i c w)) settled
        (λ k g. let (p, q, r, n, z, u) = h.placed k g in (p, r, n)) (λ g. h.undelivered e)
    where
      settled : (w.connections i).settled ≡ true
      settled = elim (Bool-cases (w.connections i).settled) [
        | inl s ↦ s
        | inr s ↦ absurd (cc (e, (h.early s).2))
      ]

  -- The socket that moves.
  unfoldable pub mover : {w v : World} → Step sockets w v → ℕ
  mover (closes i e) = i
  mover (settles i id resumed setup e) = i
  mover (fails i e) = i
  mover (ends i e) = i

  pub step-Alike :
      (w v : World) (s : Step sockets w v) (j : ℕ) → (mover s == j) ≡ false → Alike j w v
  unfolding on_close settle settle_failed finish_ending end_if mover
  step-Alike w v (closes i e) j d =
      let c = record (w.connections i) { closed = true } in
      Alike-trans j w (with_connection i c w) v (connection-Alike j i d c w)
        (end_if-Alike j i d sockets (w.connections i).settled (with_connection i c w))
  step-Alike w v (settles i id resumed setup e) j d =
      let c = record (w.connections i) { session_id = id; resumed = resumed; settled = true } in
      Alike-trans j w (with_connection i c w) v (connection-Alike j i d c w)
        (settle_on-Alike j i d sockets c.closed resumed setup id (with_connection i c w))
  step-Alike w v (fails i e) j d =
      connection-Alike j i d (record (w.connections i) { settled = true }) w
  step-Alike w v (ends i e) j d =
      let c = record (w.connections i) { ending = false } in
      Alike-trans j w (with_connection i c w) v (connection-Alike j i d c w)
        (end_session-Alike j i d sockets (with_connection i c w))

  moved-Home : (w v : World) (s : Step sockets w v) → Home (mover s) w → Home (mover s) v
  unfolding mover
  moved-Home w v (closes i e) h = closed-Home i w h
  moved-Home w v (settles i id resumed setup e) h = settled-Home i id resumed setup w h e
  moved-Home w v (fails i e) h = failed-Home i w h e
  moved-Home w v (ends i e) h = finished-Home i w h e

  Home-step : (w v : World) → ((j : ℕ) → Home j w) → Step sockets w v → (j : ℕ) → Home j v
  Home-step w v all s j = elim (Bool-cases (mover s == j)) [
    | inl m ↦ subst (λ z. Home z v) ((==_iff (mover s) j).0 m) (moved-Home w v s (all (mover s)))
    | inr d ↦ Home-Alike j w v (step-Alike w v s j d) (all j)
  ]

  pub Reach-Home : (w : World) → Reach sockets w → (j : ℕ) → Home j w
  unfolding includes
  Reach-Home w start = λ j.
      away-AtHome new_connection j (λ id. []) (λ id. refl) (λ d. cc d) (λ s. (refl, refl, refl))
        (λ e. refl)
  Reach-Home w (then_step {w = u} r s) = Home-step u w (Reach-Home u r) s

  -- In every state that the sockets' steps reach, whatever their order: each session carries the credentials
  -- and the user of its newest open socket, and none when it has no open socket; a socket that a session
  -- counts as open was settled on that session, holds it, has not ended, has closed only while its
  -- ending is still to come, and, if it was not delivered, is about to be ended or, after a throw of its
  -- setup, was told to close; and every connection that was delivered and has not ended is counted as
  -- open on its session.
  pub credentials_of_newest :
      (w : World)
      → Reach sockets w
      → ((id : Text) → w.lent id ≡ lent_by sockets (newest (w.open_sockets id)))
        × ((i : ℕ) (id : Text)
            → includes i (w.open_sockets id) ≡ true
            → Placing (w.connections i) id)
        × ((i : ℕ)
            → (w.connections i).delivered ≡ true
            → (w.connections i).notified ≡ false
            → includes i (w.open_sockets (w.connections i).session_id) ≡ true)
  credentials_of_newest w r = (
    Reach-Lends sockets w r,
    λ i id e. (Reach-Home w r i).placed id e,
    λ i d n. (Reach-Home w r i).present d n,
  )
