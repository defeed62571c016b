-- ===== src/Lock/Order.antt =====
-- shared/perSessionLock.ts: what holds of every reachable lock.
use halengine.Prelude.{
  ℕ, ◌+◌, ◌≤◌, ◌<◌, ◌≡◌, ◌∙◌, refl, sym, ap, subst, Text, text_eq, text_eq→eq, text_eq_refl, true,
  false, Option, none, some, if◌then◌else◌, ◌==◌, ==_iff, map_get, map_set, map_delete,
  get-set_self, get-set_ne, get-delete_self, get-delete_ne, Bool-cases, inl, inr, arith,
}
use halengine.Lock.{
  Phase, queued, running, answered, settled, forgotten, rank, PerSessionLock, new_lock, update, run,
  moved, is_tail, forget, Released, at_once, behind, Move, begins, answers, settles, forgets, Reach,
  start, called, stepped,
}

-- `tail` is what a call with `key` finds when `n` calls came before it: the newest of them with that
-- key, or none if all of them have settled.
pub Behind : (ℕ → Text) → (ℕ → Phase) → ℕ → Text → Option ℕ → Type 0
Behind key_of phase n key none = (i : ℕ) → i < n → key_of i ≡ key → 3 ≤ rank (phase i)
Behind key_of phase n key (some p) =
    (p < n) × (key_of p ≡ key) × ((i : ℕ) → i < n → key_of i ≡ key → i ≤ p)

pub Behind-some :
    (key_of : ℕ → Text) (phase : ℕ → Phase) (n : ℕ) (key : Text) (p : ℕ)
    → Behind key_of phase n key (some p)
    → (p < n) × (key_of p ≡ key) × ((i : ℕ) → i < n → key_of i ≡ key → i ≤ p)
unfolding Behind
Behind-some key_of phase n key p b = b

pub record Inv (s : PerSessionLock) : Type 0 where
  pub tails_lem : (key : Text) → Behind s.key_of s.phase s.calls key (map_get s.tails key)
  pub after_lem : (j : ℕ) → j < s.calls → Behind s.key_of s.phase j (s.key_of j) (s.after j)
  pub in_turn :
      (i j : ℕ)
      → i < j
      → j < s.calls
      → s.key_of i ≡ s.key_of j
      → 1 ≤ rank (s.phase j)
      → 3 ≤ rank (s.phase i)

-- Nothing changes for a call where keys stay and phases only advance.
Behind-mono :
    (key_of key_of' : ℕ → Text) (phase phase' : ℕ → Phase) (n : ℕ) (key : Text) (o : Option ℕ)
    → ((i : ℕ) → i < n → key_of' i ≡ key_of i)
    → ((i : ℕ) → i < n → rank (phase i) ≤ rank (phase' i))
    → Behind key_of phase n key o
    → Behind key_of' phase' n key o
unfolding Behind
Behind-mono key_of key_of' phase phase' n key none hk hp b =
    λ i h e. omega (arith, hp i h, b i h (sym (hk i h) ∙ e))
Behind-mono key_of key_of' phase phase' n key (some p) hk hp b =
    (b.0, hk p b.0 ∙ b.1, λ i h e. b.2 i h (sym (hk i h) ∙ e))

Inv-new : Inv new_lock
unfolding new_lock Behind map_get
Inv-new = record {
  tails_lem = λ key i h e. absurd (omega arith);
  after_lem = λ j h. absurd (omega arith);
  in_turn = λ i j h k. absurd (omega arith);
}

pub update_self {ℓ} : {A : Type ℓ} (f : ℕ → A) (n : ℕ) (v : A) → update f n v n ≡ v
update_self f n v = rw ((==_iff n n).1 refl)

pub update_lt {ℓ} : {A : Type ℓ} (f : ℕ → A) (n : ℕ) (v : A) (i : ℕ) → i < n → update f n v i ≡ f i
update_lt f n v i h = elim (Bool-cases (n == i)) [
  | inl e ↦ absurd (omega (arith, (==_iff n i).0 e))
  | inr e ↦ rw e
]

-- A new call is behind nothing that was not there before it.
Behind-before :
    (s : PerSessionLock) (key k : Text) (n : ℕ) (o : Option ℕ)
    → n ≤ s.calls
    → Behind s.key_of s.phase n k o
    → Behind (run key s).key_of (run key s).phase n k o
unfolding run
Behind-before s key k n o h b =
    Behind-mono s.key_of (run key s).key_of s.phase (run key s).phase n k o
      (λ i l. update_lt s.key_of s.calls key i (omega arith))
      (λ i l. omega (arith, ap rank (update_lt s.phase s.calls queued i (omega arith)))) b

Behind-last :
    (s : PerSessionLock) (key k : Text)
    → key ≡ k
    → Behind (run key s).key_of (run key s).phase (s.calls + 1) k (some s.calls)
unfolding run Behind
Behind-last s key k e = (omega arith, update_self s.key_of s.calls key ∙ e, λ i h e'. omega arith)

-- Nor does a new call with another key change what the next one finds.
Behind-more :
    (s : PerSessionLock) (key k : Text) (o : Option ℕ)
    → text_eq key k ≡ false
    → Behind (run key s).key_of (run key s).phase s.calls k o
    → Behind (run key s).key_of (run key s).phase (s.calls + 1) k o
unfolding run Behind
Behind-more s key k o d b = extend o b
  where
    older : (i : ℕ) → i < s.calls + 1 → update s.key_of s.calls key i ≡ k → i < s.calls
    older i h e = elim (Bool-cases (s.calls == i)) [
      | inl l ↦ absurd (
          cc (
            d,
            ap (λ z. text_eq z k)
                (sym (update_self s.key_of s.calls key)
                  ∙ ap (update s.key_of s.calls key) ((==_iff s.calls i).0 l)
                  ∙ e),
            text_eq_refl k,
          ))
      | inr l ↦ ground (arith, l)
    ]

    extend :
        (p : Option ℕ)
        → Behind (update s.key_of s.calls key) (update s.phase s.calls queued) s.calls k p
        → Behind (update s.key_of s.calls key) (update s.phase s.calls queued) (s.calls + 1) k p
    extend none b' = λ i h e. b' i (older i h e) e
    extend (some p) b' = (omega (arith, b'.0), b'.1, λ i h e. b'.2 i (older i h e) e)

-- The newest call is what the next one with its key finds; other keys find what they did.
Behind-run :
    (s : PerSessionLock)
    → Inv s
    → (key k : Text)
    → Behind
        (run key s).key_of
        (run key s).phase
        (s.calls + 1)
        k
        (map_get (map_set s.tails key s.calls) k)
Behind-run s v key k = elim (Bool-cases (text_eq key k)) [
  | inl e ↦
      subst
        (λ z.
          Behind (run key s).key_of (run key s).phase (s.calls + 1) k
            (map_get (map_set s.tails key s.calls) z))
        (text_eq→eq key k e)
        (rw (get-set_self s.tails key s.calls) (Behind-last s key k (text_eq→eq key k e)))
  | inr e ↦ rw (get-set_ne s.tails key k s.calls e) (
      Behind-more s key k (map_get s.tails k) e
        (Behind-before s key k s.calls (map_get s.tails k) (omega arith) (v.tails_lem k)))
]

after-run :
    (s : PerSessionLock)
    → Inv s
    → (key : Text) (j : ℕ) → j < s.calls + 1
    → Behind (run key s).key_of (run key s).phase j ((run key s).key_of j) ((run key s).after j)
unfolding run
after-run s v key j h = elim (Bool-cases (s.calls == j)) [
  | inl l ↦ rw l (
      Behind-before s key key j (map_get s.tails key) (omega (arith, (==_iff s.calls j).0 l)) (
        subst (λ z. Behind s.key_of s.phase z key (map_get s.tails key)) ((==_iff s.calls j).0 l)
          (v.tails_lem key)))
  | inr l ↦ rw l (
      Behind-before s key (s.key_of j) j (s.after j) (omega (arith, h))
        (v.after_lem j (ground (arith, l, h))))
]

in_turn-run :
    (s : PerSessionLock)
    → Inv s
    → (key : Text) (i j : ℕ) → i < j
    → j < s.calls + 1
    → (run key s).key_of i ≡ (run key s).key_of j
    → 1 ≤ rank ((run key s).phase j)
    → 3 ≤ rank ((run key s).phase i)
unfolding run
in_turn-run s v key i j h k e r = elim (Bool-cases (s.calls == j)) [
  | inl l ↦ absurd (omega (arith, r, ap (λ b. rank (if b then queued else s.phase j)) l))
  | inr l ↦
      let lt : j < s.calls = ground (arith, l, k) in
      omega (
        arith,
        v.in_turn i j h lt
            (sym (update_lt s.key_of s.calls key i (omega arith))
              ∙ e
              ∙ update_lt s.key_of s.calls key j lt)
            (omega (arith, r, ap rank (update_lt s.phase s.calls queued j lt))),
        ap rank (update_lt s.phase s.calls queued i (omega arith)),
      )
]

Inv-run : (s : PerSessionLock) → Inv s → (key : Text) → Inv (run key s)
unfolding run
Inv-run s v key = record {
  tails_lem = Behind-run s v key;
  after_lem = after-run s v key;
  in_turn = in_turn-run s v key;
}

-- A call advances, which it may once the calls before it with its key have settled.
Inv-moved :
    (s : PerSessionLock)
    → Inv s
    → (p : Phase) (c : ℕ) → c < s.calls
    → rank (s.phase c) ≤ rank p
    → ((i : ℕ) → i < c → s.key_of i ≡ s.key_of c → 3 ≤ rank (s.phase i))
    → Inv (moved p c s)
Inv-moved s v p c l adv first = record {
  tails_lem = λ key.
      Behind-mono s.key_of s.key_of s.phase (update s.phase c p) s.calls key (map_get s.tails key)
        (λ i h. refl) (λ i h. further i) (v.tails_lem key);
  after_lem = λ j h.
      Behind-mono s.key_of s.key_of s.phase (update s.phase c p) j (s.key_of j) (s.after j)
        (λ i h. refl) (λ i h. further i) (v.after_lem j h);
  in_turn = λ i j h k e r. elim (Bool-cases (c == j)) [
    | inl m ↦ omega (
      arith,
      further i,
      first i (omega (arith, (==_iff c j).0 m)) (e ∙ ap s.key_of (sym ((==_iff c j).0 m))),
    )
    | inr m ↦ omega (
      arith,
      further i,
      v.in_turn i j h k e (omega (arith, r, ap (λ b. rank (if b then p else s.phase j)) m)),
    )
  ];
}
  where
    further : (i : ℕ) → rank (s.phase i) ≤ rank (update s.phase c p i)
    further i = elim (Bool-cases (c == i)) [
      | inl m ↦ rw m (omega (arith, adv, ap (λ z. rank (s.phase z)) ((==_iff c i).0 m)))
      | inr m ↦ rw m (omega arith)
    ]

-- With the newest tail gone there is nothing left to wait for: its call has settled, and those before.
Behind-none :
    (s : PerSessionLock)
    → Inv s
    → (c : ℕ) → c < s.calls
    → 3 ≤ rank (s.phase c)
    → Behind s.key_of s.phase s.calls (s.key_of c) (some c)
    → Behind s.key_of s.phase s.calls (s.key_of c) none
unfolding Behind
Behind-none s v c l d b = λ i h e. elim (Bool-cases (i == c)) [
  | inl m ↦ omega (arith, d, ap (λ z. rank (s.phase z)) ((==_iff i c).0 m))
  | inr m ↦ v.in_turn i c (ground (arith, m, b.2 i h e)) l e (omega (arith, d))
]

is_tail→eq : (c : ℕ) (o : Option ℕ) → is_tail c o ≡ true → o ≡ some c
unfolding is_tail
is_tail→eq c none h = ground arith
is_tail→eq c (some t) h = ap some ((==_iff t c).0 h)

Inv-forget :
    (s : PerSessionLock)
    → Inv s
    → (c : ℕ) → c < s.calls
    → 3 ≤ rank (s.phase c)
    → Inv (forget (s.key_of c) c s)
unfolding forget
Inv-forget s v c l d = elim (Bool-cases (is_tail c (map_get s.tails (s.key_of c)))) [
  | inr e ↦ rw (forget, e) v
  | inl e ↦
      rw (forget, e)
        (record {
          tails_lem = λ key. elim (Bool-cases (text_eq (s.key_of c) key)) [
            | inl m ↦
                subst
                  (λ z.
                    Behind s.key_of s.phase s.calls z (map_get (map_delete s.tails (s.key_of c)) z))
                  (text_eq→eq (s.key_of c) key m)
                  (rw (get-delete_self s.tails (s.key_of c)) (
                    Behind-none s v c l d (
                      subst (λ o. Behind s.key_of s.phase s.calls (s.key_of c) o) (is_tail→eq c _ e)
                        (v.tails_lem (s.key_of c)))))
            | inr m ↦ rw (get-delete_ne s.tails (s.key_of c) key m) (v.tails_lem key)
          ];
          after_lem = v.after_lem;
          in_turn = v.in_turn;
        })
]

-- What a call waits on has settled: then so have all calls before it with its key.
elders_settled :
    (s : PerSessionLock)
    → Inv s
    → (c : ℕ) → c < s.calls
    → (o : Option ℕ) → Behind s.key_of s.phase c (s.key_of c) o
    → Released s o
    → (i : ℕ) → i < c
    → s.key_of i ≡ s.key_of c
    → 3 ≤ rank (s.phase i)
unfolding Behind
elders_settled s v c l none b at_once i h e = b i h e
elders_settled s v c l (some p) b (behind d) i h e = elim (Bool-cases (i == p)) [
  | inl m ↦ omega (arith, d, ap (λ z. rank (s.phase z)) ((==_iff i p).0 m))
  | inr m ↦
      v.in_turn i p (ground (arith, m, b.2 i h e)) (omega (arith, b.0)) (e ∙ sym b.1)
        (omega (arith, d))
]

Inv-step : (s : PerSessionLock) {t : PerSessionLock} → Inv s → Move s t → Inv t
Inv-step s v (begins c l e r) =
    Inv-moved s v running c l (omega (arith, ap rank e))
      (elders_settled s v c l (s.after c) (v.after_lem c l) r)
Inv-step s v (answers c l e) =
    Inv-moved s v answered c l (omega (arith, ap rank e))
      (λ i h k. v.in_turn i c h l k (omega (arith, ap rank e)))
Inv-step s v (settles c l e) =
    Inv-moved s v settled c l (omega (arith, ap rank e))
      (λ i h k. v.in_turn i c h l k (omega (arith, ap rank e)))
Inv-step s v (forgets c l e) =
    Inv-forget (moved forgotten c s)
      (Inv-moved s v forgotten c l (omega (arith, ap rank e))
        (λ i h k. v.in_turn i c h l k (omega (arith, ap rank e))))
      c l (omega (arith, ap rank (update_self s.phase c forgotten)))

pub Reach-Inv : {s : PerSessionLock} → Reach s → Inv s
Reach-Inv start = Inv-new
Reach-Inv (called {s} r key) = Inv-run s (Reach-Inv r) key
Reach-Inv (stepped {s} r m) = Inv-step s (Reach-Inv r) m
