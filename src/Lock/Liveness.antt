-- ===== src/Lock/Liveness.antt =====
-- shared/perSessionLock.ts: every queued callback gets its turn, and the map of tails empties.
use halengine.Prelude.{
  ℕ, zero, suc, ◌+◌, ◌-◌, ◌≤◌, ◌<◌, ◌≡◌, ◌∙◌, ◌⊎◌, ◌≢◌, refl, sym, ap, ap₂, subst, Text, text_eq,
  text_eq→eq, false, Option, none, some, ◌==◌, ==_iff, leb, leb→le, ltb, ltb→lt, length, map_get,
  map_set, map_delete, get-set_self, get-set_ne, get-delete_self, get-delete_ne, get_none→nil,
  Bool-cases, Option-cases, inl, inr, arith,
}
use halengine.Lock.{
  Phase, queued, running, answered, settled, forgotten, rank, PerSessionLock, new_lock, size,
  update, run, moved, is_tail, forget, Released, at_once, behind, Move, begins, answers, settles,
  forgets, Reach, start, called, stepped,
}
use halengine.Lock.Order.{Behind, Behind-some, Inv, Reach-Inv, update_lt}

-- How many moves the first `n` calls have left.
unfoldable pending_of : (ℕ → Phase) → ℕ → ℕ
pending_of phase zero = 0
pending_of phase (suc n) = pending_of phase n + (4 - rank (phase n))

unfoldable pub pending : PerSessionLock → ℕ
unfolding pending_of
pending s = pending_of s.phase s.calls

-- A run of moves, with no call between them.
pub data Moves (s : PerSessionLock) : ℕ → PerSessionLock → Type 0 where
  rest : Moves s 0 s
  then_move : {n : ℕ} {t u : PerSessionLock} → Moves s n t → Move t u → Moves s (suc n) u

pending_of-later :
    (f : ℕ → Phase) (c : ℕ) (p : Phase) (n : ℕ)
    → n ≤ c
    → pending_of (update f c p) n ≡ pending_of f n
unfolding pending_of
pending_of-later f c p zero h = refl
pending_of-later f c p (suc n) h =
    omega (arith, pending_of-later f c p n (omega arith), ap rank (update_lt' n (omega arith)))
  where
    update_lt' : (i : ℕ) → i < c → update f c p i ≡ f i
    update_lt' i l = update_lt f c p i l

pending_of-moved :
    (f : ℕ → Phase) (c : ℕ) (p : Phase) (n : ℕ)
    → c < n
    → rank p ≡ suc (rank (f c))
    → rank p ≤ 4
    → suc (pending_of (update f c p) n) ≡ pending_of f n
unfolding pending_of
pending_of-moved f c p zero h e b = absurd (omega arith)
pending_of-moved f c p (suc n) h e b = elim (Bool-cases (c == n)) [
  | inl m ↦ rw m (
      omega (
        arith,
        e,
        b,
        pending_of-later f c p n (omega (arith, (==_iff c n).0 m)),
        ap (λ z. rank (f z)) ((==_iff c n).0 m),
      ))
  | inr m ↦ rw m (omega (arith, pending_of-moved f c p n (ground (arith, m, h)) e b))
]

phase-forget : (k : Text) (c : ℕ) (s : PerSessionLock) → (forget k c s).phase ≡ s.phase
unfolding forget
phase-forget k c s = elim (Bool-cases (is_tail c (map_get s.tails k))) [
  | inl e ↦ rw (forget, e)
  | inr e ↦ rw (forget, e)
]

calls-forget : (k : Text) (c : ℕ) (s : PerSessionLock) → (forget k c s).calls ≡ s.calls
unfolding forget
calls-forget k c s = elim (Bool-cases (is_tail c (map_get s.tails k))) [
  | inl e ↦ rw (forget, e)
  | inr e ↦ rw (forget, e)
]

-- Each move is one less to make.
pending_less : (s : PerSessionLock) {t : PerSessionLock} → Move s t → suc (pending t) ≡ pending s
unfolding pending
pending_less s (begins c l e r) =
    pending_of-moved s.phase c running s.calls l (omega (arith, ap rank e)) (omega arith)
pending_less s (answers c l e) =
    pending_of-moved s.phase c answered s.calls l (omega (arith, ap rank e)) (omega arith)
pending_less s (settles c l e) =
    pending_of-moved s.phase c settled s.calls l (omega (arith, ap rank e)) (omega arith)
pending_less s (forgets c l e) =
    ap suc (
      ap₂ pending_of (phase-forget (s.key_of c) c (moved forgotten c s))
        (calls-forget (s.key_of c) c (moved forgotten c s)))
    ∙ pending_of-moved s.phase c forgotten s.calls l (omega (arith, ap rank e)) (omega arith)

pending_run :
    (s : PerSessionLock) {n : ℕ} {t : PerSessionLock} → Moves s n t → n + pending t ≡ pending s
pending_run s rest = omega arith
pending_run s (then_move {t} {u} ms m) = omega (arith, pending_run s ms, pending_less t m)

Reach-moves : {s : PerSessionLock} {n : ℕ} {t : PerSessionLock} → Reach s → Moves s n t → Reach t
Reach-moves r rest = r
Reach-moves r (then_move ms m) = stepped (Reach-moves r ms) m

-- A key's newest tail belongs to a call that is not forgotten yet.
Kept : PerSessionLock → Type 0
Kept s = (key : Text) (t : ℕ) → map_get s.tails key ≡ some t → rank (s.phase t) ≤ 3

key_of-tail :
    (s : PerSessionLock)
    → Inv s
    → (key : Text) (t : ℕ) → map_get s.tails key ≡ some t
    → s.key_of t ≡ key
key_of-tail s v key t e =
    (Behind-some s.key_of s.phase s.calls key t
      (subst (Behind s.key_of s.phase s.calls key) e (v.tails_lem key))).1

Kept-run : (s : PerSessionLock) → Inv s → Kept s → (key : Text) → Kept (run key s)
unfolding run Kept
Kept-run s v h key k t e = elim (Bool-cases (s.calls == t)) [
  | inl m ↦ rw m (omega arith)
  | inr m ↦ elim (Bool-cases (text_eq key k)) [
    | inl same ↦ absurd (
        cc (
          m,
          (==_iff s.calls t).1 (
              cc (
                e,
                get-set_self s.tails key s.calls,
                ap (map_get (map_set s.tails key s.calls)) (text_eq→eq key k same),
              )),
        ))
    | inr d ↦ rw m (h k t (sym (get-set_ne s.tails key k s.calls d) ∙ e))
  ]
]

Kept-moved : (s : PerSessionLock) (p : Phase) (c : ℕ) → rank p ≤ 3 → Kept s → Kept (moved p c s)
unfolding Kept
Kept-moved s p c b h k t e = elim (Bool-cases (c == t)) [ inl m ↦ rw m b | inr m ↦ rw m (h k t e) ]

tails-forget :
    (s : PerSessionLock) (key k : Text) (c t : ℕ)
    → map_get (forget key c s).tails k ≡ some t
    → map_get s.tails k ≡ some t
unfolding forget
tails-forget s key k c t = elim (Bool-cases (is_tail c (map_get s.tails key))) [
  | inr d ↦ rw (forget, d) (λ e. e)
  | inl d ↦
      rw (forget, d)
        (λ e. elim (Bool-cases (text_eq key k)) [
          | inr n ↦ sym (get-delete_ne s.tails key k n) ∙ e
          | inl y ↦ absurd (
              cc (
                e,
                get-delete_self s.tails key,
                ap (map_get (map_delete s.tails key)) (text_eq→eq key k y),
              ))
        ])
]

forget-not_tail :
    (s : PerSessionLock) (key : Text) (c : ℕ) → map_get (forget key c s).tails key ≢ some c
unfolding forget is_tail
forget-not_tail s key c = elim (Bool-cases (is_tail c (map_get s.tails key))) [
  | inr d ↦ rw (forget, d) (λ e. cc (d, e, (==_iff c c).1 refl))
  | inl d ↦ rw (forget, d) (λ e. cc (e, get-delete_self s.tails key))
]

Kept-forget :
    (s : PerSessionLock)
    → Inv s
    → Kept s
    → (c : ℕ) → Kept (forget (s.key_of c) c (moved forgotten c s))
unfolding Kept
Kept-forget s v h c k t e = elim (Bool-cases (c == t)) [
  | inl m ↦ absurd (
      forget-not_tail (moved forgotten c s) (s.key_of c) c (
        subst (λ z. map_get (forget (s.key_of c) c (moved forgotten c s)).tails z ≡ some t)
          (sym (ap s.key_of ((==_iff c t).0 m) ∙ key_of-tail s v k t tail)) e
        ∙ ap some (sym ((==_iff c t).0 m))))
  | inr m ↦ rw (phase-forget (s.key_of c) c (moved forgotten c s)) (rw m (h k t tail))
]
  where
    tail : map_get s.tails k ≡ some t
    tail = tails-forget (moved forgotten c s) (s.key_of c) k c t e

Kept-step : (s : PerSessionLock) {t : PerSessionLock} → Inv s → Kept s → Move s t → Kept t
Kept-step s v h (begins c l e r) = Kept-moved s running c (omega arith) h
Kept-step s v h (answers c l e) = Kept-moved s answered c (omega arith) h
Kept-step s v h (settles c l e) = Kept-moved s settled c (omega arith) h
Kept-step s v h (forgets c l e) = Kept-forget s v h c

Reach-Kept : {s : PerSessionLock} → Reach s → Kept s
unfolding Kept new_lock map_get
Reach-Kept start = λ key t e. absurd (cc e)
Reach-Kept (called {s} r key) = Kept-run s (Reach-Inv r) (Reach-Kept r) key
Reach-Kept (stepped {s} r m) = Kept-step s (Reach-Inv r) (Reach-Kept r) m

-- The oldest call that is not forgotten yet, if there is one among the first `n`.
oldest_open :
    (f : ℕ → Phase) (n : ℕ)
    → ((i : ℕ) → i < n → f i ≡ forgotten)
      ⊎ ((c : ℕ) × (c < n) × (rank (f c) ≤ 3) × ((i : ℕ) → i < c → f i ≡ forgotten))
oldest_open f zero = inl (λ i h. absurd (omega arith))
oldest_open f (suc n) = elim (oldest_open f n) [
  | inr (c, l, b, older) ↦ inr (c, omega arith, b, older)
  | inl all ↦ elim (Bool-cases (leb (rank (f n)) 3)) [
    | inl b ↦ inr (n, omega arith, leb→le _ _ b, all)
    | inr b ↦ inl (λ i h. elim (Bool-cases (i == n)) [
      | inl m ↦ ap f ((==_iff i n).0 m) ∙ last (f n) b
      | inr m ↦ all i (ground (arith, m, h))
    ])
  ]
]
  where
    last : (p : Phase) → leb (rank p) 3 ≡ false → p ≡ forgotten
    last forgotten h = refl
    last queued h = cc h
    last running h = cc h
    last answered h = cc h
    last settled h = cc h

phase-cases :
    (p : Phase)
    → (p ≡ queued) ⊎ ((p ≡ running) ⊎ ((p ≡ answered) ⊎ ((p ≡ settled) ⊎ (p ≡ forgotten))))
phase-cases queued = inl refl
phase-cases running = inr (inl refl)
phase-cases answered = inr (inr (inl refl))
phase-cases settled = inr (inr (inr (inl refl)))
phase-cases forgotten = inr (inr (inr (inr refl)))

-- A call whose elders are all forgotten can make a move.
open_moves :
    (s : PerSessionLock)
    → Inv s
    → (c : ℕ) → c < s.calls
    → rank (s.phase c) ≤ 3
    → ((i : ℕ) → i < c → s.phase i ≡ forgotten)
    → (t : PerSessionLock) × Move s t
open_moves s v c l b older = elim (phase-cases (s.phase c)) [
  | inl e ↦ (moved running c s, begins c l e (free (s.after c) (v.after_lem c l)))
  | inr (inl e) ↦ (moved answered c s, answers c l e)
  | inr (inr (inl e)) ↦ (moved settled c s, settles c l e)
  | inr (inr (inr (inl e))) ↦ (forget (s.key_of c) c (moved forgotten c s), forgets c l e)
  | inr (inr (inr (inr e))) ↦ absurd (omega (arith, b, ap rank e))
]
  where
    free : (o : Option ℕ) → Behind s.key_of s.phase c (s.key_of c) o → Released s o
    free none h = at_once
    free (some p) h =
        behind
          (omega (arith, ap rank (older p (Behind-some s.key_of s.phase c (s.key_of c) p h).0)))

-- With every call forgotten, no key has a tail.
size-idle :
    (s : PerSessionLock)
    → Inv s
    → Kept s
    → ((i : ℕ) → i < s.calls → s.phase i ≡ forgotten)
    → size s ≡ 0
unfolding size Kept
size-idle s v h idle = ap length (get_none→nil s.tails empty)
  where
    empty : (k : Text) → map_get s.tails k ≡ none
    empty k = elim (Option-cases (map_get s.tails k)) [
      | inl e ↦ e
      | inr (t, e) ↦ absurd (
          omega (
            arith,
            h k t e,
            ap rank (
                idle t
                  (Behind-some s.key_of s.phase s.calls k t
                    (subst (Behind s.key_of s.phase s.calls k) e (v.tails_lem k))).0),
          ))
    ]

-- From a lock that calls and moves lead to, in any order, let `n` moves be made with no further call.
-- They use up `n` of the moves that the calls had left, and after them either another move can be made
-- or every callback has run, settled and been forgotten and the size is 0.
pub every_callback_settles :
    {s t : PerSessionLock} {n : ℕ}
    → Reach s
    → Moves s n t
    → (n + pending t ≡ pending s)
      × (((u : PerSessionLock) × Move t u)
          ⊎ (((i : ℕ) → i < t.calls → t.phase i ≡ forgotten) × (size t ≡ 0)))
every_callback_settles {s} {t} {n} r ms = (pending_run s ms, outcome)
  where
    at : Reach t
    at = Reach-moves r ms

    outcome :
        ((u : PerSessionLock) × Move t u)
        ⊎ (((i : ℕ) → i < t.calls → t.phase i ≡ forgotten) × (size t ≡ 0))
    outcome = elim (oldest_open t.phase t.calls) [
      | inl idle ↦ inr (idle, size-idle t (Reach-Inv at) (Reach-Kept at) idle)
      | inr (c, l, b, older) ↦ inl (open_moves t (Reach-Inv at) c l b older)
    ]

-- In a lock that calls and moves lead to, in any order: once a callback has begun, the result of every
-- earlier call with its key has settled, and two callbacks of one key never run at the same time.
pub one_at_a_time :
    {s : PerSessionLock}
    → Reach s
    → (i j : ℕ) → i < s.calls
    → j < s.calls
    → s.key_of i ≡ s.key_of j
    → (i < j → 1 ≤ rank (s.phase j) → 3 ≤ rank (s.phase i))
      × (s.phase i ≡ running → s.phase j ≡ running → i ≡ j)
one_at_a_time {s} r i j hi hj e = (
  λ l b. (Reach-Inv r).in_turn i j l hj e b,
  λ ri rj. elim (Bool-cases (ltb i j)) [
    | inl l ↦ absurd (
        omega (
          arith,
          ap rank ri,
          ap rank rj,
          (Reach-Inv r).in_turn i j (ltb→lt i j l) hj e (omega (arith, ap rank rj)),
        ))
    | inr g ↦ elim (Bool-cases (ltb j i)) [
      | inl l ↦ absurd (
          omega (
            arith,
            ap rank ri,
            ap rank rj,
            (Reach-Inv r).in_turn j i (ltb→lt j i l) hi (sym e) (omega (arith, ap rank ri)),
          ))
      | inr g' ↦ ground (arith, g, g')
    ]
  ],
)
