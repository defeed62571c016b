-- ===== src/Handler/Tracking.antt =====
-- Which of the entries that a client was sent can still be retracted. What is followed is one entry,
-- at the index `i`.
use halengine.Prelude.{
  ℕ, Text, Bool, true, false, ◌≡◌, refl, ◌∙◌, sym, subst, ◌⊎◌, inl, inr, Option, none, some, List,
  [], ◌∷◌, ◌++◌, ◌==◌, ==_iff, get_elem?, Bool-cases,
}
use halengine.Session.{SessionEntry}
use halengine.Entries.{update_at}
use halengine.Messages.{OutgoingMessage, entry_upsert, entry_delta, entry_commit, entry_skip}
use halengine.Handler.{
  Handling, StateIndexKey, thinking_key, assistant_key, index_at, with_index, with_entries, ◌>=◌,
  send, send_unless, written, upsert, as_suppressed, mark_suppressed, skip_suppressed, announce,
  told_commit,
}
use halengine.Handler.Words.{
  words, replay_frame, words-send, IsWordless, words-wordless, upsert-other, delta-other,
}

-- What holds of the state that a step leaves, if it does not throw.
abbrev pub Post : (Handling → Type 0) → Option Handling → Type 0
Post P none = Unit
Post P (some s) = P s

pub then-Post :
    (P Q : Handling → Type 0) (o : Option Handling) (f : Handling → Option Handling)
    → Post P o
    → ((s : Handling) → P s → Post Q (f s))
    → Post Q (o >= f)
then-Post P Q none f p k = tt
then-Post P Q (some s) f p k = k s p

abbrev pub Listed : ℕ → List ℕ → Type 0
Listed i [] = ⊥
Listed i (j ∷ js) = (j ≡ i) ⊎ Listed i js

Listed-left : (i : ℕ) (js ks : List ℕ) → Listed i js → Listed i (js ++ ks)
Listed-left i [] ks h = absurd h
Listed-left i (j ∷ js) ks (inl e) = inl e
Listed-left i (j ∷ js) ks (inr h) = inr (Listed-left i js ks h)

Listed-last : (i : ℕ) (js : List ℕ) → Listed i (js ++ i ∷ [])
Listed-last i [] = inl refl
Listed-last i (j ∷ js) = inr (Listed-last i js)

-- The entry is opened, or it can be retracted.
abbrev pub IsOpenAt : ℕ → Handling → Type 0
IsOpenAt i s = (s.thinking_index ≡ some i) ⊎ (s.assistant_index ≡ some i)

abbrev pub Tracked : ℕ → Handling → Type 0
Tracked i s = IsOpenAt i s ⊎ Listed i s.blankable_indices

-- The client shows no words at the index, or they can still be retracted.
abbrev pub Covered : ℕ → Handling → Type 0
Covered i s = (words i s.sent ≡ []) ⊎ ((s.suppressed ≡ false) × Tracked i s)

abbrev pub Good : ℕ → Bool → Handling → Type 0
Good i b s = Covered i s × (s.suppressed ≡ b)

module _ (i : ℕ) where
  pub send-wordless :
      (b : Bool) (frame : OutgoingMessage) (s : Handling)
      → IsWordless frame
      → Good i b s
      → Good i b (send frame s)
  send-wordless b frame s h (inl e, f) = (inl (words-wordless i s.sent (frame ∷ []) (h, tt) e), f)
  send-wordless b frame s h (inr t, f) = (inr t, f)

  -- A frame of an opened entry, which can carry words while nothing is suppressed.
  pub send-open :
      (index : ℕ) (frame : OutgoingMessage) (s : Handling)
      → ((index == i) ≡ false → (shown : Text) → replay_frame i shown frame ≡ shown)
      → IsOpenAt index s
      → Good i false s
      → Good i false (send frame s)
  send-open index frame s unlike opened (inr t, f) = (inr t, f)
  send-open index frame s unlike opened (inl e, f) = elim (Bool-cases (index == i)) [
    | inl same ↦ (inr (f, inl (subst (λ j. IsOpenAt j s) ((==_iff index i).0 same) opened)), f)
    | inr differs ↦ (inl (words-send i s.sent frame ∙ unlike differs (words i s.sent) ∙ e), f)
  ]

  pub send_unless-open :
      (b : Bool) (index : ℕ) (delta : Text) (s : Handling)
      → IsOpenAt index s
      → Good i b s
      → Good i b (send_unless b (entry_delta index delta) s)
  send_unless-open true index delta s opened g = g
  send_unless-open false index delta s opened g =
      send-open index (entry_delta index delta) s (λ e shown. delta-other i index delta shown e)
        opened g

  pub index_at-with_entries :
      (key : StateIndexKey) (entries : List SessionEntry) (s : Handling)
      → index_at key (with_entries entries s) ≡ index_at key s
  index_at-with_entries thinking_key entries s = refl
  index_at-with_entries assistant_key entries s = refl

  -- A write to the entries leaves what is sent and tracked.
  pub written-Good :
      (b : Bool) (o : Option (List SessionEntry)) (s : Handling)
      → Good i b s
      → Post
          (λ s'.
            Good i b s'
            × ((j : ℕ) → IsOpenAt j s → IsOpenAt j s')
            × ((key : StateIndexKey) → index_at key s' ≡ index_at key s))
          (written o s)
  written-Good b none s g = tt
  written-Good b (some entries) s g =
      (g, λ j opened. opened, λ key. index_at-with_entries key entries s)

  pub opened_at :
      (key : StateIndexKey) (index : ℕ) (s : Handling)
      → index_at key s ≡ some index
      → IsOpenAt index s
  opened_at thinking_key index s e = inl e
  opened_at assistant_key index s e = inr e

  pub opened_with :
      (key : StateIndexKey) (index : ℕ) (s : Handling)
      → IsOpenAt index (with_index key (some index) s)
  opened_with thinking_key index s = inl refl
  opened_with assistant_key index s = inr refl

  -- Setting an index that was not set loses track of no entry.
  pub with_index-Good :
      (b : Bool) (key : StateIndexKey) (o : Option ℕ) (s : Handling)
      → index_at key s ≡ none
      → Good i b s
      → Good i b (with_index key o s)
  with_index-Good b thinking_key o s e (inl h, f) = (inl h, f)
  with_index-Good b thinking_key o s e (inr (n, inl (inl t)), f) = absurd cc
  with_index-Good b thinking_key o s e (inr (n, inl (inr t)), f) = (inr (n, inl (inr t)), f)
  with_index-Good b thinking_key o s e (inr (n, inr l), f) = (inr (n, inr l), f)
  with_index-Good b assistant_key o s e (inl h, f) = (inl h, f)
  with_index-Good b assistant_key o s e (inr (n, inl (inl t)), f) = (inr (n, inl (inl t)), f)
  with_index-Good b assistant_key o s e (inr (n, inl (inr t)), f) = absurd cc
  with_index-Good b assistant_key o s e (inr (n, inr l), f) = (inr (n, inr l), f)

  pub upsert_stored-Good :
      (index : ℕ) (o : Option SessionEntry) (s : Handling)
      → IsOpenAt index s
      → Good i false s
      → Post (λ s'. Good i false s' × ((j : ℕ) → IsOpenAt j s → IsOpenAt j s')) (upsert index o s)
  upsert_stored-Good index none s opened g = tt
  upsert_stored-Good index (some entry) s opened g = (
    send-open index (entry_upsert index entry) s (λ e shown. upsert-other i index entry shown e)
        opened g,
    λ j h. h,
  )

  pub announce-Good :
      (b : Bool) (index : ℕ) (s : Handling)
      → IsOpenAt index s
      → Good i b s
      → Post (λ s'. Good i b s' × ((j : ℕ) → IsOpenAt j s → IsOpenAt j s')) (announce b index s)
  unfolding skip_suppressed mark_suppressed
  announce-Good true index s opened g =
      then-Post _ (λ s'. Good i true s' × ((j : ℕ) → IsOpenAt j s → IsOpenAt j s'))
        (written (update_at as_suppressed s.session.entries index) s) _
        (written-Good true (update_at as_suppressed s.session.entries index) s g)
        λ s' h. (send-wordless true (entry_skip index) s' tt h.0, h.1)
  announce-Good false index s opened g =
      upsert_stored-Good index (get_elem? s.session.entries index) s opened g

  -- What a commit leaves in the place of an open entry: an index that can be retracted.
  pub told_commit-Good :
      (b : Bool) (key : StateIndexKey) (index : ℕ) (s : Handling)
      → index_at key s ≡ some index
      → Good i b s
      → Good i b (told_commit b index (with_index key none s))
  unfolding told_commit
  told_commit-Good true thinking_key index s e (inl h, f) = (inl h, f)
  told_commit-Good true assistant_key index s e (inl h, f) = (inl h, f)
  told_commit-Good true key index s e (inr (n, t), f) = absurd cc
  told_commit-Good false thinking_key index s e (inl h, f) =
      (inl (words-wordless i s.sent (entry_commit index ∷ []) (tt, tt) h), f)
  told_commit-Good false assistant_key index s e (inl h, f) =
      (inl (words-wordless i s.sent (entry_commit index ∷ []) (tt, tt) h), f)
  told_commit-Good false thinking_key index s e (inr (n, inl (inl t)), f) =
      let same : index ≡ i = cc in
      (
        inr (
          n,
          inr (
              subst (λ j. Listed i (s.blankable_indices ++ j ∷ [])) (sym same)
                (Listed-last i s.blankable_indices)),
        ),
        f,
      )
  told_commit-Good false thinking_key index s e (inr (n, inl (inr t)), f) =
      (inr (n, inl (inr t)), f)
  told_commit-Good false assistant_key index s e (inr (n, inl (inl t)), f) =
      (inr (n, inl (inl t)), f)
  told_commit-Good false assistant_key index s e (inr (n, inl (inr t)), f) =
      let same : index ≡ i = cc in
      (
        inr (
          n,
          inr (
              subst (λ j. Listed i (s.blankable_indices ++ j ∷ [])) (sym same)
                (Listed-last i s.blankable_indices)),
        ),
        f,
      )
  told_commit-Good false thinking_key index s e (inr (n, inr l), f) =
      (inr (n, inr (Listed-left i s.blankable_indices (index ∷ []) l)), f)
  told_commit-Good false assistant_key index s e (inr (n, inr l), f) =
      (inr (n, inr (Listed-left i s.blankable_indices (index ∷ []) l)), f)
