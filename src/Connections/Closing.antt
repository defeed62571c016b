-- ===== src/Connections/Closing.antt =====
-- transport/ws/connectionHandler.ts: how the end of a connection takes its socket off its session.
use halengine.Prelude.{
  ℕ, ◌≡◌, refl, sym, ap, subst, ◌∙◌, Text, text_eq, text_eq_refl, Bool, true, false, List,
  if-either, ◌==◌, ==_iff, Bool-cases, inl, inr,
}
use halengine.Connections.{
  ExtWebSocket, Connection, Effect, on_disconnect, World, includes, with_connection, with_effect_if,
  lend, leave, left_if, end_by, end_session,
}
use halengine.Connections.Alike.{includes-without_self, AtHome, Home}

same : (i : ℕ) → (i == i) ≡ true
same i = (==_iff i i).1 refl

pub connection_self :
    (i : ℕ) (c : Connection) (w : World) → (with_connection i c w).connections i ≡ c
connection_self i c w = rw (same i) refl

pub effect_connections :
    (b : Bool) (e : Effect) (w : World) → (with_effect_if b e w).connections ≡ w.connections
effect_connections true e w = refl
effect_connections false e w = refl

pub effect_open :
    (b : Bool) (e : Effect) (w : World) → (with_effect_if b e w).open_sockets ≡ w.open_sockets
effect_open true e w = refl
effect_open false e w = refl

-- No session counts the socket as open.
abbrev pub Absent : ℕ → (Text → List ℕ) → Type 0
Absent i open_sockets = (id : Text) → includes i (open_sockets id) ≡ false

-- A connection that has ended, or holds nothing yet.
pub away-AtHome :
    (c : Connection) (i : ℕ) (open_sockets : Text → List ℕ)
    → Absent i open_sockets
    → (c.delivered ≡ true → c.notified ≡ true)
    → (c.settled ≡ false → (c.delivered ≡ false) × (c.notified ≡ false) × (c.ending ≡ false))
    → (c.ending ≡ true → c.delivered ≡ false)
    → AtHome c i open_sockets
away-AtHome c i open_sockets a n e u = record {
  placed = λ id h. absurd (cc (h, a id));
  present = λ d k. absurd (cc (n d, k));
  early = e;
  undelivered = u;
}

module _ (sockets : ℕ → ExtWebSocket) where
  leave_connections :
      (id : Text) (i : ℕ) (w : World) → (leave sockets id i w).connections ≡ w.connections
  unfolding leave lend
  leave_connections id i w =
      if-either (λ (v : World). v.connections ≡ w.connections) (includes i (w.open_sockets id))
        (λ _. refl) (λ _. refl)

  -- A socket leaves the one session that counts it as open.
  leave-Absent :
      (id : Text) (i : ℕ) (w : World)
      → ((k : Text) → includes i (w.open_sockets k) ≡ true → id ≡ k)
      → Absent i (leave sockets id i w).open_sockets
  unfolding leave lend
  leave-Absent id i w only = elim (Bool-cases (includes i (w.open_sockets id))) [
    | inr e ↦ rw (leave, e) (λ k. elsewhere k e)
    | inl e ↦
        rw (leave, e)
          (λ k.
            if-either (λ l. includes i l ≡ false) (text_eq id k)
              (λ _. includes-without_self i (w.open_sockets id)) (λ d. other k d))
  ]
    where
      other : (k : Text) → text_eq id k ≡ false → includes i (w.open_sockets k) ≡ false
      other k d = elim (Bool-cases (includes i (w.open_sockets k))) [
        | inl h ↦ absurd (cc (d, ap (text_eq id) (only k h), text_eq_refl id))
        | inr h ↦ h
      ]

      elsewhere :
          (k : Text)
          → includes i (w.open_sockets id) ≡ false
          → includes i (w.open_sockets k) ≡ false
      elsewhere k e = elim (Bool-cases (includes i (w.open_sockets k))) [
        | inl h ↦ absurd (cc (h, e, ap (λ z. includes i (w.open_sockets z)) (only k h)))
        | inr h ↦ h
      ]

  pub left_if_connections :
      (b : Bool) (id : Text) (i : ℕ) (w : World)
      → (left_if sockets b id i w).connections ≡ w.connections
  unfolding left_if
  left_if_connections true id i w = leave_connections id i w
  left_if_connections false id i w = refl

  left_if-Absent :
      (b : Bool) (id : Text) (i : ℕ) (w : World)
      → ((k : Text) → includes i (w.open_sockets k) ≡ true → (id ≡ k) × (b ≡ true))
      → Absent i (left_if sockets b id i w).open_sockets
  unfolding left_if
  left_if-Absent true id i w only = leave-Absent id i w (λ k h. (only k h).0)
  left_if-Absent false id i w only = λ k. elim (Bool-cases (includes i (w.open_sockets k))) [
    | inl h ↦ absurd (cc ((only k h).1))
    | inr h ↦ h
  ]

  pub ended-Home :
      (i : ℕ) (w : World)
      → (w.connections i).settled ≡ true
      → ((k : Text)
          → includes i (w.open_sockets k) ≡ true
          → ((w.connections i).session_id ≡ k)
            × ((w.connections i).held ≡ true)
            × ((w.connections i).notified ≡ false))
      → ((w.connections i).ending ≡ true → (w.connections i).delivered ≡ false)
      → Home i (end_session sockets i w)
  unfolding end_session end_by
  ended-Home i w s only u = by_notified c.notified refl
    where
      c : Connection
      c = w.connections i

      w1 : World
      w1 = with_connection i (record c { notified = true }) w

      w2 : World
      w2 = left_if sockets c.held c.session_id i w1

      by_notified : (b : Bool) → c.notified ≡ b → Home i (end_by sockets b i w)
      by_notified true e =
          away-AtHome c i w.open_sockets
            (λ id. elim (Bool-cases (includes i (w.open_sockets id))) [
              | inl h ↦ absurd (cc (e, (only id h).2))
              | inr h ↦ h
            ])
            (λ d. e) (λ k. absurd (cc (s, k))) u
      by_notified false e =
          subst (λ f. AtHome (f i) i (with_effect_if c.delivered (on_disconnect i) w2).open_sockets)
            (sym (
              effect_connections c.delivered (on_disconnect i) w2
              ∙ left_if_connections c.held c.session_id i w1))
            (subst (λ z. AtHome z i (with_effect_if c.delivered (on_disconnect i) w2).open_sockets)
              (sym (connection_self i (record c { notified = true }) w))
              (subst (AtHome (record c { notified = true }) i)
                (sym (effect_open c.delivered (on_disconnect i) w2))
                (away-AtHome (record c { notified = true }) i w2.open_sockets
                  (left_if-Absent c.held c.session_id i w1 (λ k h. ((only k h).0, (only k h).1)))
                  (λ d. refl) (λ k. absurd (cc (s, k))) u)))
