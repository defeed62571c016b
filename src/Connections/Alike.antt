-- ===== src/Connections/Alike.antt =====
-- transport/ws/connectionHandler.ts: what a step of one socket leaves alone of another.
use halengine.Prelude.{
  ◌⊎◌, ℕ, ◌≡◌, refl, sym, ap, subst, ◌∙◌, Text, text_eq, text_eq→eq, Bool, true, false, not, ◌||◌,
  List, [], ◌∷◌, ◌++◌, if◌then◌else◌, if-either, ◌==◌, ==_iff, arith,
}
use halengine.Connections.{
  Setup, sent, unsent, unprepared, give_up, ExtWebSocket, Connection, Effect, on_disconnect, evicts,
  World, includes, without, with_connection, with_effect_if, begin_ending, deliver, lend, join,
  leave, left_if, end_by, end_session, taken, settle_on, end_if,
}

includes-append_ne :
    (j i : ℕ) (is : List ℕ) → (i == j) ≡ false → includes j (is ++ i ∷ []) ≡ includes j is
unfolding includes
includes-append_ne j i [] d = rw d refl
includes-append_ne j i (k ∷ is) d = ap (λ b. k == j || b) (includes-append_ne j i is d)

pub includes-append_self : (i : ℕ) (is : List ℕ) → includes i (is ++ i ∷ []) ≡ true
unfolding includes
includes-append_self i [] = ground (arith, (==_iff i i).1 refl)
includes-append_self i (k ∷ is) = ground (arith, includes-append_self i is)

includes-without_ne :
    (j i : ℕ) (is : List ℕ) → (i == j) ≡ false → includes j (without i is) ≡ includes j is
unfolding includes without
includes-without_ne j i [] d = refl
includes-without_ne j i (k ∷ is) d =
    if-either (λ l. includes j l ≡ (k == j || includes j is)) (k == i)
      (λ e. includes-without_ne j i is d ∙ ground (arith, d, e))
      (λ _. ap (λ b. k == j || b) (includes-without_ne j i is d))

pub includes-without_self : (i : ℕ) (is : List ℕ) → includes i (without i is) ≡ false
unfolding includes without
includes-without_self i [] = refl
includes-without_self i (k ∷ is) =
    if-either (λ l. includes i l ≡ false) (k == i) (λ _. includes-without_self i is)
      (λ e. ground (arith, e, includes-without_self i is))

-- A session counts a socket as open that took it up, until the socket's connection ends; one that has
-- closed only while its eviction is still to come. One that was not delivered is ending, or was told to
-- close.
abbrev pub Placing : Connection → Text → Type 0
Placing c id =
    (c.session_id ≡ id)
    × (c.settled ≡ true)
    × (c.held ≡ true)
    × (c.notified ≡ false)
    × (c.closed ≡ true → c.ending ≡ true)
    × (c.delivered ≡ false → (c.ending ≡ true) ⊎ (c.broken ≡ true))

pub record AtHome (c : Connection) (i : ℕ) (open_sockets : Text → List ℕ) : Type 0 where
  pub placed : (id : Text) → includes i (open_sockets id) ≡ true → Placing c id
  pub present :
      c.delivered ≡ true → c.notified ≡ false → includes i (open_sockets c.session_id) ≡ true
  pub early : c.settled ≡ false → (c.delivered ≡ false) × (c.notified ≡ false) × (c.ending ≡ false)
  pub undelivered : c.ending ≡ true → c.delivered ≡ false

abbrev pub Home : ℕ → World → Type 0
Home i w = AtHome (w.connections i) i w.open_sockets

-- What a step does not change for another socket.
pub Alike : ℕ → World → World → Type 0
Alike j w v =
    (w.connections j ≡ v.connections j)
    × ((id : Text) → includes j (v.open_sockets id) ≡ includes j (w.open_sockets id))

pub Home-Alike : (j : ℕ) (w v : World) → Alike j w v → Home j w → Home j v
unfolding Alike
Home-Alike j w v a h =
    subst (λ c. AtHome c j v.open_sockets) a.0
      (record {
        placed = λ id e. h.placed id (sym (a.1 id) ∙ e);
        present = λ d n. a.1 (w.connections j).session_id ∙ h.present d n;
        early = h.early;
        undelivered = h.undelivered;
      })

pub Alike-connections : (j : ℕ) (w v : World) → Alike j w v → w.connections j ≡ v.connections j
unfolding Alike
Alike-connections j w v a = a.0

pub Alike-trans : (j : ℕ) (w v u : World) → Alike j w v → Alike j v u → Alike j w u
unfolding Alike
Alike-trans j w v u a b = (a.0 ∙ b.0, λ id. b.1 id ∙ a.1 id)

module _ (j i : ℕ) (d : (i == j) ≡ false) where
  pub connection-Alike : (c : Connection) (w : World) → Alike j w (with_connection i c w)
  unfolding Alike
  connection-Alike c w = (rw d refl, λ id. refl)

  pub effect-Alike : (b : Bool) (e : Effect) (w : World) → Alike j w (with_effect_if b e w)
  unfolding Alike
  effect-Alike true e w = (refl, λ id. refl)
  effect-Alike false e w = (refl, λ id. refl)

  changed_list :
      (f : Text → List ℕ) (id : Text) (is : List ℕ)
      → includes j is ≡ includes j (f id)
      → (k : Text) → includes j (if text_eq id k then is else f k) ≡ includes j (f k)
  changed_list f id is e k =
      if-either (λ l. includes j l ≡ includes j (f k)) (text_eq id k)
        (λ q. e ∙ ap (λ z. includes j (f z)) (text_eq→eq id k q)) (λ _. refl)

  module _ (sockets : ℕ → ExtWebSocket) where
    join-Alike : (id : Text) (w : World) → Alike j w (join sockets id i w)
    unfolding Alike join lend
    join-Alike id w = (
      refl,
      changed_list w.open_sockets id (w.open_sockets id ++ i ∷ [])
          (includes-append_ne j i (w.open_sockets id) d),
    )

    leave-Alike : (id : Text) (w : World) → Alike j w (leave sockets id i w)
    unfolding Alike leave lend
    leave-Alike id w =
        if-either
          (λ (v : World).
            (w.connections j ≡ v.connections j)
            × ((k : Text) → includes j (v.open_sockets k) ≡ includes j (w.open_sockets k)))
          (includes i (w.open_sockets id))
          (λ _. (
            refl,
            changed_list w.open_sockets id (without i (w.open_sockets id))
                (includes-without_ne j i (w.open_sockets id) d),
          ))
          (λ _. (refl, λ k. refl))

    left_if-Alike : (b : Bool) (id : Text) (w : World) → Alike j w (left_if sockets b id i w)
    unfolding left_if Alike
    left_if-Alike true id w = leave-Alike id w
    left_if-Alike false id w = (refl, λ k. refl)

    pub end_session-Alike : (w : World) → Alike j w (end_session sockets i w)
    unfolding end_session end_by
    end_session-Alike w = by_notified (w.connections i).notified
      where
        by_notified : (b : Bool) → Alike j w (end_by sockets b i w)
        by_notified true = unfold Alike in (refl, λ k. refl)
        by_notified false =
            let c = w.connections i in
            let w1 = with_connection i (record c { notified = true }) w in
            Alike-trans j w w1 _ (connection-Alike (record c { notified = true }) w) (
              Alike-trans j w1 (left_if sockets c.held c.session_id i w1) _
                (left_if-Alike c.held c.session_id w1)
                (effect-Alike c.delivered (on_disconnect i) _))

    begin_ending-Alike : (w : World) → Alike j w (begin_ending i w)
    unfolding begin_ending
    begin_ending-Alike w =
        let c = record (w.connections i) { held = true; ending = true } in
        Alike-trans j w (with_connection i c w) _ (connection-Alike c w)
          (effect-Alike (not (w.connections i).resumed) (evicts i) (with_connection i c w))

    taken-Alike : (id : Text) (w : World) → Alike j w (taken sockets i id w)
    unfolding taken
    taken-Alike id w =
        let c = record (w.connections i) { held = true } in
        Alike-trans j w (with_connection i c w) _ (connection-Alike c w)
          (join-Alike id (with_connection i c w))

    pub settle_on-Alike :
        (closed resumed : Bool) (setup : Setup) (id : Text) (w : World)
        → Alike j w (settle_on sockets closed resumed setup i id w)
    unfolding settle_on deliver give_up
    settle_on-Alike true true setup id w = begin_ending-Alike w
    settle_on-Alike true false setup id w =
        Alike-trans j w (taken sockets i id w) _ (taken-Alike id w)
          (begin_ending-Alike (taken sockets i id w))
    settle_on-Alike false resumed sent id w =
        Alike-trans j w (taken sockets i id w) _ (taken-Alike id w) (
          unfold Alike in
          connection-Alike (record ((taken sockets i id w).connections i) { delivered = true })
            (taken sockets i id w))
    settle_on-Alike false resumed unprepared id w =
        Alike-trans j w (taken sockets i id w) _ (taken-Alike id w) (
          unfold Alike in
          connection-Alike (record ((taken sockets i id w).connections i) { broken = true })
            (taken sockets i id w))
    settle_on-Alike false resumed unsent id w =
        Alike-trans j w (taken sockets i id w) _ (taken-Alike id w)
          (begin_ending-Alike (taken sockets i id w))

    pub end_if-Alike : (b : Bool) (w : World) → Alike j w (end_if sockets b i w)
    unfolding end_if
    end_if-Alike true w = end_session-Alike w
    end_if-Alike false w = unfold Alike in (refl, λ k. refl)
