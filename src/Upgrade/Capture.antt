-- ===== src/Upgrade/Capture.antt =====
-- transport/authHeaders.ts and transport/ws/credential.ts: which headers a socket keeps, and the one
-- credential that an upgrade presents.
use halengine.Prelude.{
  ◌≡◌, refl, ap, sym, ◌∙◌, Text, text_eq, text_eq→eq, Bool, true, false, ◌&&◌, ◌||◌, Option, none,
  some, List, [], ◌∷◌, if◌then◌else◌, Bool-cases, inl, inr, arith,
}
use mathlib.Core.Option
use halengine.Session.{AuthHeaders}
use halengine.Upgrade.{
  ForwardableHeader, cookie, authorization, host, header_of, same_header, names_header, is_set,
  kept_headers, from_entries, unless_empty, filter_auth_headers, UpgradeRequest, agreed,
  conflicting, or_undefined, bearer, agreeing, presented_credential, credential_from_subprotocol,
}

-- A header of the headers that a socket keeps, if it keeps any.
abbrev pub kept_header : ForwardableHeader → Option AuthHeaders → Option Text
kept_header name none = none
kept_header name (some headers) = header_of name headers

same_header→eq : (n m : ForwardableHeader) → same_header n m ≡ true → n ≡ m
same_header→eq cookie cookie h = refl
same_header→eq cookie authorization h = absurd (cc h)
same_header→eq cookie host h = absurd (cc h)
same_header→eq authorization cookie h = absurd (cc h)
same_header→eq authorization authorization h = refl
same_header→eq authorization host h = absurd (cc h)
same_header→eq host cookie h = absurd (cc h)
same_header→eq host authorization h = absurd (cc h)
same_header→eq host host h = refl

names_header-kept_headers :
    (headers : AuthHeaders) (name : ForwardableHeader) (allow : List ForwardableHeader)
    → names_header name (kept_headers headers allow)
      ≡ (names_header name allow && is_set (header_of name headers))
unfolding names_header kept_headers
names_header-kept_headers headers name [] = refl
names_header-kept_headers headers name (n ∷ ns) = elim (Bool-cases (is_set (header_of n headers))) [
  | inl e ↦ rw (e, names_header-kept_headers headers name ns) (kept e)
  | inr e ↦ rw (e, names_header-kept_headers headers name ns) (dropped e)
]
  where
    kept :
        is_set (header_of n headers) ≡ true
        → (same_header n name || (names_header name ns && is_set (header_of name headers)))
          ≡ ((same_header n name || names_header name ns) && is_set (header_of name headers))
    kept e = elim (Bool-cases (same_header n name)) [
      | inl m ↦ rw m (sym e ∙ ap (λ z. is_set (header_of z headers)) (same_header→eq n name m))
      | inr m ↦ rw m refl
    ]

    dropped :
        is_set (header_of n headers) ≡ false
        → (names_header name ns && is_set (header_of name headers))
          ≡ ((same_header n name || names_header name ns) && is_set (header_of name headers))
    dropped e = elim (Bool-cases (same_header n name)) [
      | inl m ↦
          ground
            (arith, m, sym e ∙ ap (λ z. is_set (header_of z headers)) (same_header→eq n name m))
      | inr m ↦ rw m refl
    ]

kept_header-unless_empty :
    (headers : AuthHeaders) (name : ForwardableHeader) (kept : List ForwardableHeader)
    → kept_header name (unless_empty headers kept)
      ≡ (if names_header name kept then header_of name headers else none)
unfolding unless_empty from_entries names_header
kept_header-unless_empty headers name [] = refl
kept_header-unless_empty headers cookie (n ∷ ns) = refl
kept_header-unless_empty headers authorization (n ∷ ns) = refl
kept_header-unless_empty headers host (n ∷ ns) = refl

if-is_set :
    (b : Bool) (h : Option Text) → (if b && is_set h then h else none) ≡ (if b then h else none)
if-is_set true none = refl
if-is_set true (some s) = refl
if-is_set false h = refl

-- A header is kept exactly if it is allowed, as it came.
pub kept_header-filter_auth_headers :
    (headers : AuthHeaders) (allow : List ForwardableHeader) (name : ForwardableHeader)
    → kept_header name (filter_auth_headers headers allow)
      ≡ (if names_header name allow then header_of name headers else none)
unfolding filter_auth_headers
kept_header-filter_auth_headers headers allow name =
    kept_header-unless_empty headers name (kept_headers headers allow)
    ∙ ap (λ b. if b then header_of name headers else none)
        (names_header-kept_headers headers name allow)
    ∙ if-is_set (names_header name allow) (header_of name headers)

-- The value is the request's Authorization header, and the offered credential, where it has them.
pub OneCredential : UpgradeRequest → Option Text → Type 0
OneCredential request value =
    ((header : Text) → or_undefined request.authorization ≡ some header → value ≡ some header)
    × ((offered : Text)
        → credential_from_subprotocol request.subprotocol ≡ some offered
        → value ≡ some (bearer offered))
    × (or_undefined request.authorization ≡ none
        → credential_from_subprotocol request.subprotocol ≡ none
        → value ≡ none)

abbrev Agrees : Option Text → Option Text → Option Text → Type 0
Agrees header offered value =
    ((s : Text) → header ≡ some s → value ≡ some s)
    × ((c : Text) → offered ≡ some c → value ≡ some (bearer c))
    × (header ≡ none → offered ≡ none → value ≡ none)

agreeing-Agrees :
    (header offered value : Option Text)
    → agreeing header (Option.map bearer offered) ≡ agreed value
    → Agrees header offered value
unfolding agreeing
agreeing-Agrees none none value e = (λ s h. absurd (cc h), λ c h. absurd (cc h), λ h k. cc e)
agreeing-Agrees none (some c) value e =
    (λ s h. absurd (cc h), λ d h. cc (e, h), λ h k. absurd (cc k))
agreeing-Agrees (some s) none value e =
    (λ t h. cc (e, h), λ c h. absurd (cc h), λ h k. absurd (cc h))
agreeing-Agrees (some s) (some c) value e = elim (Bool-cases (text_eq s (bearer c))) [
  | inl q ↦
      let f : agreed (some s) ≡ agreed value = rw q at e in
      (λ t h. cc (f, h), λ d h. cc (f, h, text_eq→eq s (bearer c) q), λ h k. absurd (cc h))
  | inr q ↦ (let f : conflicting ≡ agreed value = rw q at e in absurd (cc f))
]

pub presented_credential-OneCredential :
    (request : UpgradeRequest) (value : Option Text)
    → presented_credential request ≡ agreed value
    → OneCredential request value
unfolding presented_credential OneCredential
presented_credential-OneCredential request value e =
    agreeing-Agrees (or_undefined request.authorization)
      (credential_from_subprotocol request.subprotocol) value e
