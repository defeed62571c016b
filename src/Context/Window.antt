-- ===== src/Context/Window.antt =====
-- The window on a conversation: what it keeps, how it opens and how long it is.
use halengine.Prelude.{
  ℕ, zero, suc, ◌+◌, ◌-◌, ◌≤◌, ◌<◌, Text, Bool, true, false, ◌≡◌, refl, sym, ap, ◌∙◌, ◌⊎◌, inl, inr,
  List, [], ◌∷◌, ◌++◌, append_assoc, length, length-append, length-drop, drop, arith, ltb, ◌==◌,
  Bool-cases, if◌then◌else◌,
}
use halengine.Session.{SessionEntry, user, UserEntry}
use halengine.Ai.{Message, text_message, from_user}
use halengine.Context.{
  ContextConfig, to_content_messages, content_from, messages_of, counter_after, slice_last,
  opens_with_user_text, from_user_text, content_length, total_length, shift_while,
  apply_message_window, to_messages,
}

-- `xs` is what is left of `ys` after a number of messages at the front.
abbrev pub IsSuffix {ℓ} : {A : Type ℓ} → List A → List A → Type ℓ
IsSuffix {A} xs ys = (front : List A) × (ys ≡ front ++ xs)

module _ {ℓ} {A : Type ℓ} where
  IsSuffix-refl : (xs : List A) → IsSuffix xs xs
  IsSuffix-refl xs = ([], refl)

  IsSuffix-cons : (x : A) (xs ys : List A) → IsSuffix xs ys → IsSuffix xs (x ∷ ys)
  IsSuffix-cons x xs ys (front, e) = (x ∷ front, ap (◌∷◌ x) e)

  IsSuffix-trans : (xs ys zs : List A) → IsSuffix xs ys → IsSuffix ys zs → IsSuffix xs zs
  IsSuffix-trans xs ys zs (f, p) (g, q) = (g ++ f, q ∙ ap (◌++◌ g) p ∙ sym (append_assoc g f xs))

  IsSuffix-drop : (n : ℕ) (xs : List A) → IsSuffix (drop n xs) xs
  IsSuffix-drop zero xs = IsSuffix-refl xs
  IsSuffix-drop (suc n) [] = IsSuffix-refl []
  IsSuffix-drop (suc n) (x ∷ xs) = IsSuffix-cons x _ xs (IsSuffix-drop n xs)

  slice_last-IsSuffix : (n : ℕ) (xs : List A) → IsSuffix (slice_last n xs) xs
  unfolding slice_last
  slice_last-IsSuffix n xs = elim (Bool-cases (n == 0)) [
    | inl e ↦ rw (e, slice_last) (IsSuffix-refl xs)
    | inr e ↦ rw (e, slice_last) (IsSuffix-drop (length xs - n) xs)
  ]

  length-slice_last : (n : ℕ) (xs : List A) → 0 < n → length (slice_last n xs) ≤ n
  unfolding slice_last
  length-slice_last n xs h = ground (arith, length-drop (length xs - n) xs)

  length-suffix : (xs ys : List A) → IsSuffix xs ys → length xs ≤ length ys
  length-suffix xs ys (front, e) = omega (arith, ap length e, length-append front xs)

from_user_text-IsSuffix : (xs : List Message) → IsSuffix (from_user_text xs) xs
unfolding from_user_text
from_user_text-IsSuffix [] = IsSuffix-refl []
from_user_text-IsSuffix (m ∷ rest) = elim (Bool-cases (opens_with_user_text m)) [
  | inl e ↦ rw (e, from_user_text) (IsSuffix-refl _)
  | inr e ↦ rw (e, from_user_text) (IsSuffix-cons m _ rest (from_user_text-IsSuffix rest))
]

-- Nothing, or a list that opens with a user's text.
abbrev pub OpensWithUser : List Message → Type 0
OpensWithUser [] = Unit
OpensWithUser (m ∷ rest) = opens_with_user_text m ≡ true

from_user_text-OpensWithUser : (xs : List Message) → OpensWithUser (from_user_text xs)
unfolding from_user_text
from_user_text-OpensWithUser [] = tt
from_user_text-OpensWithUser (m ∷ rest) = elim (Bool-cases (opens_with_user_text m)) [
  | inl e ↦ rw (e, from_user_text) e
  | inr e ↦ rw (e, from_user_text) (from_user_text-OpensWithUser rest)
]

module _ (json_length : Message → ℕ) where
  shift_while-IsSuffix :
      (most total : ℕ) (xs : List Message) → IsSuffix (shift_while json_length most total xs) xs
  unfolding shift_while
  shift_while-IsSuffix most total [] = IsSuffix-refl []
  shift_while-IsSuffix most total (m ∷ []) = IsSuffix-refl _
  shift_while-IsSuffix most total (m ∷ n ∷ rest) = elim (Bool-cases (ltb most total)) [
    | inl e ↦
        rw (e, shift_while)
          (IsSuffix-cons m _ (n ∷ rest)
            (shift_while-IsSuffix most (total - content_length json_length m) (n ∷ rest)))
    | inr e ↦ rw (e, shift_while) (IsSuffix-refl _)
  ]

  -- At most one message is left, or their length fits.
  abbrev pub Fits : ℕ → List Message → Type 0
  Fits most xs = (length xs ≤ 1) ⊎ (total_length json_length xs ≤ most)

  shift_while-Fits :
      (most : ℕ) (xs : List Message)
      → Fits most (shift_while json_length most (total_length json_length xs) xs)
  unfolding shift_while total_length
  shift_while-Fits most [] = inl (omega arith)
  shift_while-Fits most (m ∷ []) = inl (omega arith)
  shift_while-Fits most (m ∷ n ∷ rest) =
      let left = total_length json_length (n ∷ rest) in
      elim (Bool-cases (ltb most (content_length json_length m + left))) [
        | inl e ↦
            let same : content_length json_length m + left - content_length json_length m ≡ left =
              omega arith in
            rw (e, shift_while, same) (shift_while-Fits most (n ∷ rest))
        | inr e ↦ rw (e, shift_while) (inr (ground arith))
      ]

  total_length-append :
      (xs ys : List Message)
      → total_length json_length (xs ++ ys)
        ≡ total_length json_length xs + total_length json_length ys
  unfolding total_length
  total_length-append [] ys = omega arith
  total_length-append (x ∷ xs) ys = omega (arith, total_length-append xs ys)

  Fits-suffix : (most : ℕ) (xs ys : List Message) → IsSuffix xs ys → Fits most ys → Fits most xs
  Fits-suffix most xs ys (front, e) (inl h) = inl (omega (arith, length-suffix xs ys (front, e)))
  Fits-suffix most xs ys (front, e) (inr h) =
      inr (omega (arith, ap (total_length json_length) e, total_length-append front xs))

  -- What a turn sends is a suffix of the conversation's messages. It is empty or opens with a user's
  -- text; beyond a single message its content fits the length bound; and it has at most
  -- `maxMessages` messages, unless that is 0.
  pub to_messages_window :
      (entries : List SessionEntry) (config : ContextConfig)
      → let sent = to_messages json_length entries config in
        IsSuffix sent (to_content_messages entries)
        × OpensWithUser sent
        × Fits config.max_content_length sent
        × ((length sent ≤ config.max_messages) ⊎ (config.max_messages ≡ 0))
  unfolding to_messages apply_message_window
  to_messages_window entries config =
      let all = to_content_messages entries in
      let last = slice_last config.max_messages all in
      let fit =
        shift_while json_length config.max_content_length (total_length json_length last) last in
      let fit-last : IsSuffix fit last = shift_while-IsSuffix config.max_content_length _ last in
      let sent-fit : IsSuffix (from_user_text fit) fit = from_user_text-IsSuffix fit in
      let sent-last = IsSuffix-trans _ fit last sent-fit fit-last in
      (
        IsSuffix-trans _ last all sent-last (slice_last-IsSuffix config.max_messages all),
        from_user_text-OpensWithUser fit,
        Fits-suffix config.max_content_length _ fit sent-fit
            (shift_while-Fits config.max_content_length last),
        few config.max_messages all (from_user_text fit) sent-last,
      )
    where
      few :
          (n : ℕ) (all sent : List Message)
          → IsSuffix sent (slice_last n all)
          → (length sent ≤ n) ⊎ (n ≡ 0)
      few zero all sent s = inr refl
      few (suc n) all sent s =
          inl (omega (arith, length-suffix sent _ s, length-slice_last (suc n) all (omega arith)))

-- A list that ends in `m`.
abbrev pub EndsWith : Message → List Message → Type 0
EndsWith m xs = (front : List Message) × (xs ≡ front ++ m ∷ [])

drop-EndsWith :
    (m : Message) (n : ℕ) (xs : List Message) → n ≤ length xs → EndsWith m (drop n (xs ++ m ∷ []))
drop-EndsWith m zero xs h = (xs, refl)
drop-EndsWith m (suc n) [] h = absurd (omega arith)
drop-EndsWith m (suc n) (x ∷ xs) h = drop-EndsWith m n xs (omega arith)

slice_last-EndsWith :
    (m : Message) (n : ℕ) (xs : List Message) → EndsWith m (slice_last n (xs ++ m ∷ []))
unfolding slice_last
slice_last-EndsWith m zero xs = (xs, refl)
slice_last-EndsWith m (suc n) xs =
    let zeroless : (suc n == 0) ≡ false = ground arith in
    rw (zeroless, slice_last) (drop-EndsWith m _ xs (omega (arith, length-append {0} xs (m ∷ []))))

from_user_text-EndsWith :
    (content : Text) (front : List Message)
    → EndsWith
        (text_message from_user content)
        (from_user_text (front ++ text_message from_user content ∷ []))
unfolding from_user_text
from_user_text-EndsWith content [] = ([], refl)
from_user_text-EndsWith content (x ∷ front) = elim (Bool-cases (opens_with_user_text x)) [
  | inl e ↦ rw (e, from_user_text) (x ∷ front, refl)
  | inr e ↦ rw (e, from_user_text) (from_user_text-EndsWith content front)
]

module _ (json_length : Message → ℕ) where
  shift_while-EndsWith :
      (most total : ℕ) (m : Message) (front : List Message)
      → EndsWith m (shift_while json_length most total (front ++ m ∷ []))
  unfolding shift_while
  shift_while-EndsWith most total m [] = ([], refl)
  shift_while-EndsWith most total m (x ∷ []) = elim (Bool-cases (ltb most total)) [
    | inl e ↦ rw (e, shift_while) ([], refl)
    | inr e ↦ rw (e, shift_while) (x ∷ [], refl)
  ]
  shift_while-EndsWith most total m (x ∷ y ∷ front) = elim (Bool-cases (ltb most total)) [
    | inl e ↦
        rw (e, shift_while)
          (shift_while-EndsWith most (total - content_length json_length x) m (y ∷ front))
    | inr e ↦ rw (e, shift_while) (x ∷ y ∷ front, refl)
  ]

content_from-user :
    (counter : ℕ) (entries : List SessionEntry) (e : UserEntry)
    → e.cleared ≡ false
    → EndsWith (text_message from_user e.content) (content_from counter (entries ++ user e ∷ []))
unfolding content_from
content_from-user counter [] e h = ([], ground arith)
content_from-user counter (x ∷ entries) e h =
    let (front, same) = content_from-user (counter_after counter x) entries e h in
    (
      messages_of counter x ++ front,
      ap (◌++◌ (messages_of counter x)) same ∙ sym (append_assoc (messages_of counter x) front _),
    )

module _ (json_length : Message → ℕ) where
  -- The message that a user has just sent, if it has not been cleared, is the last one sent to the
  -- provider, however long it is and however small the window.
  pub to_messages-user :
      (entries : List SessionEntry) (e : UserEntry) (config : ContextConfig)
      → e.cleared ≡ false
      → EndsWith
          (text_message from_user e.content)
          (to_messages json_length (entries ++ user e ∷ []) config)
  unfolding to_messages apply_message_window to_content_messages
  to_messages-user entries e config h =
      let m = text_message from_user e.content in
      let (all, p) = content_from-user 0 entries e h in
      let (last, q) = slice_last-EndsWith m config.max_messages all in
      let (fit, r) =
        shift_while-EndsWith json_length config.max_content_length
          (total_length json_length (last ++ m ∷ [])) m last in
      rw (p, q, r) (from_user_text-EndsWith e.content fit)

slice_last_zero : (n : ℕ) (xs : List Message) → length xs ≤ n → slice_last 0 xs ≡ slice_last n xs
unfolding slice_last
slice_last_zero n xs h =
    let none_cut : length xs - n ≡ 0 = omega arith in rw none_cut (same (n == 0))
  where
    same : (b : Bool) → xs ≡ (if b then xs else xs)
    same true = refl
    same false = refl

module _ (json_length : Message → ℕ) where
  -- A `maxMessages` of 0 bounds nothing: it sends what a count at least as large as the conversation
  -- sends, since `slice(-0)` is the whole list.
  pub to_messages_zero :
      (entries : List SessionEntry) (n most : ℕ)
      → length (to_content_messages entries) ≤ n
      → to_messages json_length entries (record { max_messages = 0; max_content_length = most })
        ≡ to_messages json_length entries (record { max_messages = n; max_content_length = most })
  unfolding to_messages apply_message_window
  to_messages_zero entries n most h =
      ap
        (λ last. from_user_text (shift_while json_length most (total_length json_length last) last))
        (slice_last_zero n (to_content_messages entries) h)
