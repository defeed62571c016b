-- ===== src/Connections/Told.antt =====
-- transport/ws/connectionHandler.ts: what has been told of a socket, counted.
use halengine.Prelude.{
  ℕ, ◌+◌, ◌≤◌, ◌≡◌, refl, sym, ◌∙◌, Bool, true, false, not, ◌&&◌, List, [], ◌∷◌, ◌==◌, ==_iff,
  Bool-cases, inl, inr, arith,
}
use halengine.Connections.{
  Connection, Effect, on_connect, on_disconnect, evicts, World, with_effect_if,
}

abbrev pub one_if : Bool → ℕ
one_if true = 1
one_if false = 0

unfoldable pub connects : ℕ → List Effect → ℕ
connects i [] = 0
connects i (on_connect j ∷ es) = one_if (j == i) + connects i es
connects i (on_disconnect j ∷ es) = connects i es
connects i (evicts j ∷ es) = connects i es

unfoldable pub disconnects : ℕ → List Effect → ℕ
disconnects i [] = 0
disconnects i (on_connect j ∷ es) = disconnects i es
disconnects i (on_disconnect j ∷ es) = one_if (j == i) + disconnects i es
disconnects i (evicts j ∷ es) = disconnects i es

unfoldable pub evictions : ℕ → List Effect → ℕ
evictions i [] = 0
evictions i (on_connect j ∷ es) = evictions i es
evictions i (on_disconnect j ∷ es) = evictions i es
evictions i (evicts j ∷ es) = one_if (j == i) + evictions i es

abbrev pub added : Bool → Effect → List Effect → List Effect
added true e es = e ∷ es
added false e es = es

-- What has been told of a socket fits its connection.
pub record Told (i : ℕ) (c : Connection) (es : List Effect) : Type 0 where
  pub heard : connects i es ≡ one_if c.delivered
  pub parted : disconnects i es ≡ one_if (c.delivered && c.closed)
  pub evicted : evictions i es ≤ 1
  pub unheard : evictions i es ≡ 1 → (c.delivered ≡ false) × (c.resumed ≡ false)
  pub unsettled : c.settled ≡ false → evictions i es ≡ 0
  pub over : c.delivered ≡ true → c.notified ≡ c.closed

-- What has been told of one socket is what was told before.
unfoldable pub Quiet : ℕ → List Effect → List Effect → Type 0
Quiet j es fs =
    (connects j fs ≡ connects j es)
    × (disconnects j fs ≡ disconnects j es)
    × (evictions j fs ≡ evictions j es)

pub effect_added :
    (b : Bool) (e : Effect) (w : World) → (with_effect_if b e w).effects ≡ added b e w.effects
effect_added true e w = refl
effect_added false e w = refl

pub added-Quiet :
    (j i : ℕ) (b : Bool) (es : List Effect)
    → (i == j) ≡ false
    → Quiet j es (added b (on_disconnect i) es) × Quiet j es (added b (evicts i) es)
unfolding Quiet connects disconnects evictions
added-Quiet j i false es d = ((refl, refl, refl), (refl, refl, refl))
added-Quiet j i true es d = ((refl, rw d (omega arith), refl), (refl, refl, rw d (omega arith)))

same : (i : ℕ) → (i == i) ≡ true
same i = (==_iff i i).1 refl

pub closed_over :
    (i : ℕ) (c : Connection) (es : List Effect)
    → Told i c es
    → c.closed ≡ false
    → c.notified ≡ true
    → c.delivered ≡ false
closed_over i c es h e n = elim (Bool-cases c.delivered) [
  | inl d ↦ absurd (cc (h.over d, e, n))
  | inr d ↦ d
]

-- The socket of a connection that is not delivered closes, or ends.
pub undelivered-Told :
    (i : ℕ) (c z : Connection) (es : List Effect)
    → Told i c es
    → c.delivered ≡ false
    → z.delivered ≡ false
    → z.resumed ≡ c.resumed
    → (z.settled ≡ false → evictions i es ≡ 0)
    → Told i z es
undelivered-Told i c z es h d k r u = record {
  heard = rw k (h.heard ∙ rw d refl);
  parted = rw k (h.parted ∙ rw d refl);
  evicted = h.evicted;
  unheard = λ e. (k, r ∙ (h.unheard e).1);
  unsettled = u;
  over = λ e. absurd (cc (e, k));
}

pub closes-Told :
    (i : ℕ) (c : Connection) (es : List Effect)
    → Told i c es
    → c.closed ≡ false
    → c.delivered ≡ true
    → c.settled ≡ true
    → Told i (record c { closed = true; notified = true }) (on_disconnect i ∷ es)
unfolding connects disconnects evictions
closes-Told i c es h e d s = record {
  heard = h.heard;
  parted = rw (same i, h.parted, d, e) (omega arith);
  evicted = h.evicted;
  unheard = h.unheard;
  unsettled = λ u. absurd (cc (u, s));
  over = λ k. refl;
}

pub settled-Told :
    (i : ℕ) (c z : Connection) (es : List Effect)
    → Told i c es
    → c.settled ≡ false
    → c.delivered ≡ false
    → z.delivered ≡ false
    → z.settled ≡ true
    → Told i z es
settled-Told i c z es h s d k t = record {
  heard = rw k (h.heard ∙ rw d refl);
  parted = rw k (h.parted ∙ rw d refl);
  evicted = h.evicted;
  unheard = λ f. absurd (omega (arith, f, h.unsettled s));
  unsettled = λ u. absurd (cc (u, t));
  over = λ f. absurd (cc (f, k));
}

pub evicts-Told :
    (i : ℕ) (c z : Connection) (es : List Effect)
    → Told i c es
    → c.settled ≡ false
    → c.delivered ≡ false
    → z.delivered ≡ false
    → z.settled ≡ true
    → Told i z (added (not z.resumed) (evicts i) es)
evicts-Told i c z es h s d k t = by_resumed z.resumed refl
  where
    by_resumed : (b : Bool) → z.resumed ≡ b → Told i z (added (not b) (evicts i) es)
    by_resumed true e = settled-Told i c z es h s d k t
    by_resumed false e =
        unfold connects disconnects evictions in
        record {
          heard = rw k (h.heard ∙ rw d refl);
          parted = rw k (h.parted ∙ rw d refl);
          evicted = rw (same i, h.unsettled s) (omega arith);
          unheard = λ f. (k, e);
          unsettled = λ u. absurd (cc (u, t));
          over = λ f. absurd (cc (f, k));
        }

pub delivers-Told :
    (i : ℕ) (c z : Connection) (es : List Effect)
    → Told i c es
    → c.settled ≡ false
    → c.delivered ≡ false
    → z.delivered ≡ true
    → z.closed ≡ false
    → z.notified ≡ false
    → z.settled ≡ true
    → Told i z (on_connect i ∷ es)
unfolding connects disconnects evictions
delivers-Told i c z es h s d k e n t = record {
  heard = rw (same i, h.heard, d, k) (omega arith);
  parted = rw (k, e) (h.parted ∙ rw d refl);
  evicted = h.evicted;
  unheard = λ f. absurd (omega (arith, f, h.unsettled s));
  unsettled = λ u. absurd (cc (u, t));
  over = λ f. n ∙ sym e;
}
