-- ===== src/Entries/Roles.antt =====
-- What every write to the entries keeps: the role of each entry and its place, and a user's own words.
use halengine.Prelude.{
  ℕ, zero, suc, ◌-◌, Text, text_eq→eq, true, ◌≡◌, refl, ap, ◌∙◌, Option, none, some, List, [], ◌∷◌,
  ◌++◌, map, length, get_elem?, arith, ap₂, Bool-cases, Option-cases, inl, inr, if◌then◌else◌,
}
use mathlib.Core.Option
use halengine.Session.{
  SessionEntry, user, assistant, thinking, tool, other, Role, user_role, assistant_role,
  thinking_role, tool_role, other_role, role_of, role_eq, Redactor,
}
use halengine.Entries.{
  is_open, clear, kept_or_cleared, redacted, EntryWriter, update_at, append_entry, with_delta,
  append_delta, as_truncated, mark_truncated, stop_streaming, committed, commit_entry, closed,
  clear_first, clear_beyond, close_turn,
}

-- What hasRole passes has the role asked for.
role_eq→eq : (r s : Role) → role_eq r s ≡ true → r ≡ s
role_eq→eq user_role s h = ground arith
role_eq→eq assistant_role s h = ground arith
role_eq→eq thinking_role s h = ground arith
role_eq→eq tool_role s h = ground arith
role_eq→eq (other_role r) (other_role t) h = ap other_role (text_eq→eq r t h)
role_eq→eq (other_role r) user_role h = cc
role_eq→eq (other_role r) assistant_role h = cc
role_eq→eq (other_role r) thinking_role h = cc
role_eq→eq (other_role r) tool_role h = cc

role_of-clear : (e : SessionEntry) → role_of (clear e) ≡ role_of e
unfolding clear
role_of-clear (other e) = ground arith
role_of-clear (user e) = refl
role_of-clear _ = refl

role_of-kept_or_cleared :
    (e : SessionEntry) (r : Option SessionEntry) → role_of (kept_or_cleared e r) ≡ role_of e
unfolding kept_or_cleared
role_of-kept_or_cleared e none = role_of-clear e
role_of-kept_or_cleared e (some r) = elim (Bool-cases (role_eq (role_of r) (role_of e))) [
  | inl h ↦ rw (h, kept_or_cleared) (role_eq→eq _ _ h)
  | inr h ↦ rw (h, kept_or_cleared) (role_of-clear e)
]

pub role_of-redacted : (r : Option Redactor) (e : SessionEntry) → role_of (redacted r e) ≡ role_of e
unfolding redacted
role_of-redacted none e = refl
role_of-redacted (some f) (user e) = refl
role_of-redacted (some f) (assistant e) = role_of-kept_or_cleared (assistant e) (f (assistant e))
role_of-redacted (some f) (thinking e) = role_of-kept_or_cleared (thinking e) (f (thinking e))
role_of-redacted (some f) (tool e) = role_of-kept_or_cleared (tool e) (f (tool e))
role_of-redacted (some f) (other e) = role_of-kept_or_cleared (other e) (f (other e))

role_of-with_delta :
    (w : EntryWriter) (delta : Text) (e : SessionEntry) → role_of (with_delta w delta e) ≡ role_of e
unfolding with_delta
role_of-with_delta w delta (assistant e) =
    ground (
      arith,
      role_of-redacted w.redact_entry (assistant (record e { content = e.content ++ delta })),
    )
role_of-with_delta w delta (thinking e) =
    ground (
      arith,
      role_of-redacted w.redact_entry (thinking (record e { content = e.content ++ delta })),
    )
role_of-with_delta w delta (user e) = refl
role_of-with_delta w delta (tool e) = refl
role_of-with_delta w delta (other e) = refl

role_of-as_truncated : (e : SessionEntry) → role_of (as_truncated e) ≡ role_of e
unfolding as_truncated
role_of-as_truncated (assistant e) = refl
role_of-as_truncated (thinking e) = refl
role_of-as_truncated _ = refl

role_of-stop_streaming : (e : SessionEntry) → role_of (stop_streaming e) ≡ role_of e
unfolding stop_streaming
role_of-stop_streaming (assistant e) = refl
role_of-stop_streaming (thinking e) = refl
role_of-stop_streaming _ = refl

role_of-committed : (w : EntryWriter) (e : SessionEntry) → role_of (committed w e) ≡ role_of e
unfolding committed
role_of-committed w e =
    ground (arith, role_of-redacted w.redact_entry (stop_streaming e), role_of-stop_streaming e)

role_of-closed : (w : EntryWriter) (e : SessionEntry) → role_of (closed w e) ≡ role_of e
unfolding closed
role_of-closed w e = ground (
  arith,
  role_of-redacted w.redact_entry (stop_streaming (as_truncated e)),
  role_of-stop_streaming (as_truncated e),
  role_of-as_truncated e,
)

abbrev pub roles : List SessionEntry → List Role
roles entries = map role_of entries

roles-append : (xs ys : List SessionEntry) → roles (xs ++ ys) ≡ roles xs ++ roles ys
roles-append [] ys = refl
roles-append (x ∷ xs) ys = ap (◌∷◌ (role_of x)) (roles-append xs ys)

roles-update_at :
    (f : SessionEntry → SessionEntry)
    → ((e : SessionEntry) → role_of (f e) ≡ role_of e)
    → (entries : List SessionEntry) (i : ℕ)
    → Option.map roles (update_at f entries i)
      ≡ Option.map (λ _. roles entries) (get_elem? entries i)
roles-update_at f keeps [] i = refl
roles-update_at f keeps (e ∷ entries) zero = ap (λ r. some (r ∷ roles entries)) (keeps e)
roles-update_at f keeps (e ∷ entries) (suc i) = elim (Option-cases (get_elem? entries i)) [
  | inl n ↦ rw n
  | inr (x, s) ↦
      let ih = roles-update_at f keeps entries i in
      rw s (ap (Option.map (λ rs. role_of e ∷ rs)) (rw s at ih))
]

roles-clear_first :
    (n : ℕ) (entries : List SessionEntry) → roles (clear_first n entries) ≡ roles entries
unfolding clear_first
roles-clear_first zero entries = refl
roles-clear_first (suc n) [] = refl
roles-clear_first (suc n) (e ∷ entries) =
    ground (arith, role_of-clear e, roles-clear_first n entries)

roles-clear_beyond :
    (entries : List SessionEntry) (kept : Option ℕ)
    → roles (clear_beyond entries kept) ≡ roles entries
unfolding clear_beyond
roles-clear_beyond entries none = refl
roles-clear_beyond entries (some n) = roles-clear_first (length entries - n) entries

roles-closed :
    (w : EntryWriter) (entries : List SessionEntry) → roles (map (closed w) entries) ≡ roles entries
roles-closed w [] = refl
roles-closed w (e ∷ entries) = ap₂ ◌∷◌ (role_of-closed w e) (roles-closed w entries)

pub role_of_stored :
    (w : EntryWriter) (e : SessionEntry)
    → role_of (if is_open e then e else redacted w.redact_entry e) ≡ role_of e
role_of_stored w e = ground (arith, role_of-redacted w.redact_entry e)

role_at_end :
    (xs : List SessionEntry) (r : Role) → get_elem? (roles xs ++ r ∷ []) (length xs) ≡ some r
role_at_end [] r = refl
role_at_end (x ∷ xs) r = role_at_end xs r

-- No write moves an entry or changes its role, whatever a redactor answers: an append adds one role
-- at the end and answers its index, a write at an index keeps all roles and throws exactly where
-- there is no entry, and the end of a turn keeps all roles.
pub roles_kept :
    (w : EntryWriter) (entries : List SessionEntry) (entry : SessionEntry) (i : ℕ) (delta : Text)
    → (roles (append_entry w entries entry).0 ≡ roles entries ++ role_of entry ∷ [])
      × (get_elem? (roles (append_entry w entries entry).0) (append_entry w entries entry).1
          ≡ some (role_of entry))
      × (Option.map roles (append_delta w entries i delta)
          ≡ Option.map (λ _. roles entries) (get_elem? entries i))
      × (Option.map roles (mark_truncated entries i)
          ≡ Option.map (λ _. roles entries) (get_elem? entries i))
      × (Option.map roles (commit_entry w entries i)
          ≡ Option.map (λ _. roles entries) (get_elem? entries i))
      × (roles (close_turn w entries) ≡ roles entries)
unfolding append_entry append_delta mark_truncated commit_entry close_turn
roles_kept w entries entry i delta = (
  appended,
  rw appended (role_at_end entries (role_of entry)),
  roles-update_at (with_delta w delta) (role_of-with_delta w delta) entries i,
  roles-update_at as_truncated role_of-as_truncated entries i,
  roles-update_at (committed w) (role_of-committed w) entries i,
  roles-clear_beyond (map (closed w) entries) w.max_content_entries ∙ roles-closed w entries,
)
  where
    appended : roles (append_entry w entries entry).0 ≡ roles entries ++ role_of entry ∷ []
    appended = roles-append entries _ ∙ ap (λ r. roles entries ++ r ∷ []) (role_of_stored w entry)
