-- ===== src/Upgrade.antt =====
-- transport/ws/connectionHandler.ts (createUpgradeHandler), transport/ws/helpers.ts, transport/ws/credential.ts,
-- transport/ws/subprotocol.ts and transport/authHeaders.ts: which upgrades become sockets, and what of the
-- request a socket keeps. `new URL`, the authenticator and whether the `connection` listeners return are
-- parameters; `ws` answers a handshake that it is handed.
pub mod Capture
pub mod Admission
pub mod Examples
use halengine.Prelude.{
  ℕ, Text, text, text_eq, Bool, true, false, not, ◌&&◌, ◌||◌, Option, none, some, List, [], ◌∷◌,
  ◌++◌, if◌then◌else◌, length, ltb, ◌==◌, Json, undefined, number, str, not_finite, Fields,
}
use mathlib.Core.Option
use halengine.Session.{UserId, named, numbered, AuthHeaders, AuthenticatedUser}
use halengine.Frames.{member, trim, matches_session_id}
use halengine.Resume.{SessionResumeOptions, is_on}

pub data ForwardableHeader : Type 0 where
  cookie authorization host : ForwardableHeader

-- headers[name]
abbrev pub header_of : ForwardableHeader → AuthHeaders → Option Text
header_of cookie headers = headers.cookie
header_of authorization headers = headers.authorization
header_of host headers = headers.host

abbrev pub same_header : ForwardableHeader → ForwardableHeader → Bool
same_header cookie cookie = true
same_header authorization authorization = true
same_header host host = true
same_header _ _ = false

unfoldable pub names_header : ForwardableHeader → List ForwardableHeader → Bool
names_header name [] = false
names_header name (n ∷ ns) = same_header n name || names_header name ns

abbrev pub is_set : Option Text → Bool
is_set none = false
is_set (some s) = true

unfoldable pub kept_headers : AuthHeaders → List ForwardableHeader → List ForwardableHeader
kept_headers headers [] = []
kept_headers headers (n ∷ ns) =
    let rest = kept_headers headers ns in if is_set (header_of n headers) then n ∷ rest else rest

-- Object.fromEntries(kept)
unfoldable pub from_entries : AuthHeaders → List ForwardableHeader → AuthHeaders
unfolding names_header
from_entries headers kept = record {
  cookie = if names_header cookie kept then headers.cookie else none;
  authorization = if names_header authorization kept then headers.authorization else none;
  host = if names_header host kept then headers.host else none;
}

unfoldable pub unless_empty : AuthHeaders → List ForwardableHeader → Option AuthHeaders
unfolding from_entries
unless_empty headers [] = none
unless_empty headers (n ∷ ns) = some (from_entries headers (n ∷ ns))

unfoldable pub filter_auth_headers : AuthHeaders → List ForwardableHeader → Option AuthHeaders
unfolding kept_headers unless_empty
filter_auth_headers headers allow = unless_empty headers (kept_headers headers allow)

unfoldable pub forwarded_headers : Option (List ForwardableHeader) → List ForwardableHeader
forwarded_headers none = []
forwarded_headers (some configured) = configured

abbrev pub hal_ws_subprotocol : Text
hal_ws_subprotocol = text "hal.v1"

abbrev pub onto_first : ℕ → List Text → List Text
onto_first u [] = (u ∷ []) ∷ []
onto_first u (p ∷ ps) = (u ∷ p) ∷ ps

-- split(',')
unfoldable pub split_commas : Text → List Text
split_commas [] = [] ∷ []
split_commas (u ∷ s) = let rest = split_commas s in if u == 44 then [] ∷ rest else onto_first u rest

unfoldable pub trimmed : List Text → List Text
trimmed [] = []
trimmed (v ∷ vs) = trim v ∷ trimmed vs

unfoldable pub includes_value : Text → List Text → Bool
includes_value value [] = false
includes_value value (v ∷ vs) = text_eq v value || includes_value value vs

unfoldable pub first_credential : List Text → Option Text
first_credential [] = none
first_credential (v ∷ vs) =
    let rest = first_credential vs in
    if ltb 0 (length v) && not (text_eq v hal_ws_subprotocol) then some v else rest

unfoldable pub offered_values : Option Text → List Text
unfolding split_commas trimmed
offered_values none = []
offered_values (some header) = trimmed (split_commas header)

unfoldable pub credential_from_subprotocol : Option Text → Option Text
unfolding offered_values includes_value first_credential
credential_from_subprotocol header =
    let values = offered_values header in
    if includes_value hal_ws_subprotocol values then first_credential values else none

-- The headers that an upgrade reads, and its target.
pub record UpgradeRequest : Type 0 where
  pub url : Text
  pub host : Option Text
  pub forwarded_host : Option Text
  pub cookie : Option Text
  pub authorization : Option Text
  pub subprotocol : Option Text

pub data PresentedCredential : Type 0 where
  agreed : (value : Option Text) → PresentedCredential
  conflicting : PresentedCredential

-- value || undefined
unfoldable pub or_undefined : Option Text → Option Text
or_undefined none = none
or_undefined (some []) = none
or_undefined (some (u ∷ s)) = some (u ∷ s)

abbrev pub bearer : Text → Text
bearer offered = text "Bearer " ++ offered

unfoldable pub agreeing : (header from_subprotocol : Option Text) → PresentedCredential
agreeing none from_subprotocol = agreed from_subprotocol
agreeing (some header) none = agreed (some header)
agreeing (some header) (some offered) =
    if text_eq header offered then agreed (some header) else conflicting

unfoldable pub presented_credential : UpgradeRequest → PresentedCredential
unfolding agreeing or_undefined credential_from_subprotocol
presented_credential request =
    agreeing (or_undefined request.authorization)
      (Option.map bearer (credential_from_subprotocol request.subprotocol))

-- What the authenticator does: it throws, answers nobody, or answers a user with whatever it has as an id.
pub data Authenticated : Type 0 where
  throws nobody : Authenticated
  somebody : (id : Json) (claims : Fields) → Authenticated

-- isScalarUserId(id), and the id that it lets through.
unfoldable pub scalar_user_id : Json → Option UserId
scalar_user_id (str s) = some (named s)
scalar_user_id (number not_finite) = none
scalar_user_id (number n) = some (numbered n)
scalar_user_id _ = none

pub record Target : Type 0 where
  pub pathname : Text
  pub search_param : Text → Option Text

-- What an upgrade puts on its socket.
pub record UpgradedSocket : Type 0 where
  pub user_id : UserId
  pub workspace_id : Json
  pub user : AuthenticatedUser
  pub auth_headers : Option AuthHeaders
  pub requested_session_id : Option Text
  pub start_new_session : Bool

pub data Reply : Type 0 where
  rejected : (status_line : Text) → Reply
  opened : UpgradedSocket → Reply
  closed_after : UpgradedSocket → Reply

-- `reported` is reportedIgnoredId as the upgrade leaves it, and `warned` whether the upgrade told the log.
pub record Handled : Type 0 where
  pub answer : Reply
  pub reported : Bool
  pub warned : Bool

unfoldable pub starts_with : Text → Text → Bool
starts_with s [] = true
starts_with [] (p ∷ ps) = false
starts_with (u ∷ s) (p ∷ ps) = u == p && starts_with s ps

abbrev pub or_else : Option Text → Option Text → Option Text
or_else none other = other
or_else (some s) other = some s

-- What an upgrade may keep of its headers: the one credential stands for the Authorization header.
unfoldable pub captured_headers : UpgradeRequest → Option Text → AuthHeaders
captured_headers request credential = record {
  cookie = request.cookie;
  authorization = credential;
  host = or_else request.forwarded_host request.host;
}

abbrev pub rejects : Bool → Text → Handled
rejects reported status_line = record {
  answer = rejected status_line;
  reported = reported;
  warned = false;
}

unfoldable pub param_of : Option Target → Text → Option Text
param_of none name = none
param_of (some target) name = target.search_param name

unfoldable pub usable_id : Option Text → Option Text
usable_id none = none
usable_id (some id) = if matches_session_id id then some id else none

unfoldable pub is_one : Option Text → Bool
is_one none = false
is_one (some value) = text_eq value (text "1")

module _ (new_url : Text → Option Target) (base_path : Text) where
  unfoldable pub is_valid_ws_path : Text → Bool
  unfolding starts_with
  is_valid_ws_path url = elim (new_url url) [
    | none ↦ false
    | some target ↦ starts_with target.pathname (base_path ++ text "/ws")
  ]

  unfoldable pub session_id_from_upgrade : Text → Option Text
  unfolding is_valid_ws_path param_of usable_id
  session_id_from_upgrade url =
      if is_valid_ws_path url then usable_id (param_of (new_url url) (text "sessionId")) else none

  unfoldable pub new_session_requested : Text → Bool
  unfolding is_valid_ws_path param_of is_one
  new_session_requested url = is_valid_ws_path url && is_one (param_of (new_url url) (text "new"))

  module _ (ws_auth : UpgradeRequest → Authenticated) (listens : UpgradedSocket → Bool)
      (resume : Option SessionResumeOptions)
      (forward_headers : Option (List ForwardableHeader)) where
    unfoldable pub upgraded : UpgradeRequest → Option Text → UserId → Fields → UpgradedSocket
    unfolding filter_auth_headers forwarded_headers captured_headers session_id_from_upgrade
        new_session_requested
    upgraded request credential id claims = record {
      user_id = id;
      workspace_id = member claims (text "workspaceId");
      user = record { id = id; claims = claims };
      auth_headers =
          filter_auth_headers (captured_headers request credential)
            (forwarded_headers forward_headers);
      requested_session_id = if is_on resume then session_id_from_upgrade request.url else none;
      start_new_session = is_on resume && new_session_requested request.url;
    }

    -- A client named an id while resume is off, for the first time.
    unfoldable pub warns : Bool → UpgradeRequest → Bool
    unfolding session_id_from_upgrade
    warns reported request =
        not (is_on resume) && (is_set (session_id_from_upgrade request.url) && not reported)

    unfoldable pub open_socket : Bool → UpgradeRequest → UpgradedSocket → Handled
    unfolding warns
    open_socket reported request socket =
        let warned = warns reported request in
        record {
          answer = if listens socket then opened socket else closed_after socket;
          reported = reported || warned;
          warned = warned;
        }

    unfoldable pub admit : Bool → UpgradeRequest → Option Text → Authenticated → Handled
    unfolding scalar_user_id upgraded open_socket
    admit reported request credential throws = rejects reported (text "500 Internal Server Error")
    admit reported request credential nobody = rejects reported (text "401 Unauthorized")
    admit reported request credential (somebody id claims) = elim (scalar_user_id id) [
      | none ↦ rejects reported (text "401 Unauthorized")
      | some user_id ↦ open_socket reported request (upgraded request credential user_id claims)
    ]

    unfoldable pub authenticate_with : Bool → UpgradeRequest → PresentedCredential → Handled
    unfolding admit
    authenticate_with reported request conflicting = rejects reported (text "400 Bad Request")
    authenticate_with reported request (agreed credential) =
        admit reported request credential (ws_auth request)

    unfoldable pub handle_upgrade : Bool → UpgradeRequest → Handled
    unfolding or_undefined is_valid_ws_path presented_credential authenticate_with
    handle_upgrade reported request =
        if not (is_set (or_undefined request.host)) || not (is_valid_ws_path request.url)
        then rejects reported (text "400 Bad Request")
        else authenticate_with reported request (presented_credential request)
