-- ===== src/Context/Pairing.antt =====
-- Tool calls and their results: a provider refuses a result whose call it was not sent, and a call
-- with no result.
use halengine.Prelude.{
  ℕ, zero, suc, true, false, ◌≡◌, refl, ◌⊎◌, inl, inr, List, [], ◌∷◌, ◌++◌, drop, Bool-cases, ltb,
  ◌==◌, ◌-◌,
}
use halengine.Session.{SessionEntry, user, assistant, thinking, tool, other}
use halengine.Ai.{
  Message, text_message, tool_use_message, tool_result_message, ToolCallContent, ToolResultContent,
}
use halengine.Context.{
  ContextConfig, to_content_messages, content_from, messages_of, counter_after, slice_last,
  opens_with_user_text, from_user_text, shift_while, content_length, apply_message_window,
  to_messages,
}

abbrev pub IsText : Message → Type 0
IsText (text_message speaker content) = Unit
IsText _ = ⊥

-- Each call is followed at once by the result that answers it, and no result stands without its call.
pub data IsPaired : List Message → Type 0 where
  done : IsPaired []
  said : (m : Message) {rest : List Message} → IsText m → IsPaired rest → IsPaired (m ∷ rest)
  answered :
      (call : ToolCallContent) (result : ToolResultContent) {rest : List Message}
      → call.tool_use_id ≡ result.tool_use_id
      → IsPaired rest
      → IsPaired (tool_use_message (call ∷ []) ∷ tool_result_message (result ∷ []) ∷ rest)

-- The same behind a result whose call has been cut away.
abbrev IsCut : List Message → Type 0
IsCut xs =
    IsPaired xs
    ⊎ ((m : Message) × (rest : List Message) × (xs ≡ m ∷ rest)
        × (opens_with_user_text m ≡ false)
        × IsPaired rest)

messages_of-IsPaired :
    (counter : ℕ) (e : SessionEntry) (rest : List Message)
    → IsPaired rest
    → IsPaired (messages_of counter e ++ rest)
unfolding messages_of
messages_of-IsPaired counter (user e) rest h = elim (Bool-cases e.cleared) [
  | inl c ↦ rw c h
  | inr c ↦ rw c (said _ tt h)
]
messages_of-IsPaired counter (assistant e) rest h = elim (Bool-cases e.cleared) [
  | inl c ↦ rw c h
  | inr c ↦ rw c (said _ tt h)
]
messages_of-IsPaired counter (thinking e) rest h = h
messages_of-IsPaired counter (other e) rest h = h
messages_of-IsPaired counter (tool e) rest h = elim (Bool-cases e.cleared) [
  | inl c ↦ rw c h
  | inr c ↦ rw c (answered _ _ refl h)
]

content_from-IsPaired :
    (counter : ℕ) (entries : List SessionEntry) → IsPaired (content_from counter entries)
unfolding content_from
content_from-IsPaired counter [] = done
content_from-IsPaired counter (e ∷ entries) =
    messages_of-IsPaired counter e _ (content_from-IsPaired (counter_after counter e) entries)

tail-IsCut : (m : Message) (rest : List Message) → IsCut (m ∷ rest) → IsCut rest
tail-IsCut m rest (inl (said _ t h)) = inl h
tail-IsCut m rest (inl (answered call result e h)) =
    inr (_, _, refl, unfold opens_with_user_text in refl, h)
tail-IsCut m rest (inr (n, others, e, o, h)) = inl (rw (same e) h)
  where
    same : m ∷ rest ≡ n ∷ others → rest ≡ others
    same p = cc

drop-IsCut : (n : ℕ) (xs : List Message) → IsCut xs → IsCut (drop n xs)
drop-IsCut zero xs h = h
drop-IsCut (suc n) [] h = h
drop-IsCut (suc n) (x ∷ xs) h = drop-IsCut n xs (tail-IsCut x xs h)

slice_last-IsCut : (n : ℕ) (xs : List Message) → IsCut xs → IsCut (slice_last n xs)
unfolding slice_last
slice_last-IsCut n xs h = elim (Bool-cases (n == 0)) [
  | inl e ↦ rw (e, slice_last) h
  | inr e ↦ rw (e, slice_last) (drop-IsCut _ xs h)
]

module _ (json_length : Message → ℕ) where
  shift_while-IsCut :
      (most total : ℕ) (xs : List Message)
      → IsCut xs
      → IsCut (shift_while json_length most total xs)
  unfolding shift_while
  shift_while-IsCut most total [] h = h
  shift_while-IsCut most total (m ∷ []) h = h
  shift_while-IsCut most total (m ∷ n ∷ rest) h = elim (Bool-cases (ltb most total)) [
    | inl e ↦
        rw (e, shift_while)
          (shift_while-IsCut most (total - content_length json_length m) (n ∷ rest)
            (tail-IsCut m (n ∷ rest) h))
    | inr e ↦ rw (e, shift_while) h
  ]

from_user_text-IsPaired : (xs : List Message) → IsCut xs → IsPaired (from_user_text xs)
unfolding from_user_text
from_user_text-IsPaired [] h = done
from_user_text-IsPaired (m ∷ rest) h = elim (Bool-cases (opens_with_user_text m)) [
  | inl e ↦ rw (e, from_user_text) (whole_list h e)
  | inr e ↦ rw (e, from_user_text) (from_user_text-IsPaired rest (tail-IsCut m rest h))
]
  where
    whole_list : IsCut (m ∷ rest) → opens_with_user_text m ≡ true → IsPaired (m ∷ rest)
    whole_list (inl p) e = p
    whole_list (inr (n, others, s, o, p)) e = cc

module _ (json_length : Message → ℕ) where
  -- Wherever the window cuts, a provider is sent no tool result without its call and no call
  -- without its result, each pair under one id.
  pub to_messages-IsPaired :
      (entries : List SessionEntry) (config : ContextConfig)
      → IsPaired (to_messages json_length entries config)
  unfolding to_messages apply_message_window to_content_messages
  to_messages-IsPaired entries config = from_user_text-IsPaired _ (
      shift_while-IsCut json_length config.max_content_length _ _
        (slice_last-IsCut config.max_messages _ (inl (content_from-IsPaired 0 entries))))
