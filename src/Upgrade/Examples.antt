-- ===== src/Upgrade/Examples.antt =====
-- Tests of the upgrades and the witness of their theorem.
use halengine.Prelude.{
  ◌≡◌, refl, Text, text, Bool, true, false, Option, none, some, List, [], ◌∷◌, not_finite, str,
  number, undefined, empty, text_eq, if◌then◌else◌,
}
use halengine.Session.{named}
use halengine.Frames.{
  trim, trim_start, trim_end, kept_before, is_white, matches_session_id, all_id_units, is_id_unit,
  member,
}
use halengine.Resume.{SessionResumeOptions}
use halengine.Upgrade.{
  ForwardableHeader, authorization, names_header, kept_headers, from_entries, unless_empty,
  filter_auth_headers, forwarded_headers, split_commas, trimmed, includes_value, first_credential,
  offered_values, credential_from_subprotocol, UpgradeRequest, or_undefined, agreeing,
  presented_credential, Authenticated, somebody, scalar_user_id, Target, UpgradedSocket, rejected,
  opened, starts_with, captured_headers, param_of, usable_id, is_one, is_valid_ws_path,
  session_id_from_upgrade, new_session_requested, upgraded, open_socket, admit, authenticate_with,
  handle_upgrade,
}
use halengine.Upgrade.Admission.{Justified, handle_upgrade-Justified}

offered : credential_from_subprotocol (some (text "hal.v1, tok")) ≡ some (text "tok")
unfolding credential_from_subprotocol offered_values split_commas trimmed includes_value
    first_credential trim trim_start trim_end kept_before is_white
offered = refl

unmarked : credential_from_subprotocol (some (text "chat, tok")) ≡ none
unfolding credential_from_subprotocol offered_values split_commas trimmed includes_value
    first_credential trim trim_start trim_end kept_before is_white
unmarked = refl

-- The one path that this server knows, with a session id asked for.
abbrev new_url : Text → Option Target
new_url url =
    if text_eq url (text "/hal/ws?sessionId=s1")
    then some (record {
      pathname = text "/hal/ws";
      search_param = λ name. if text_eq name (text "sessionId") then some (text "s1") else none;
    })
    else none

abbrev request : UpgradeRequest
request = record {
  url = text "/hal/ws?sessionId=s1";
  host = some (text "hal");
  forwarded_host = none;
  cookie = some (text "c");
  authorization = none;
  subprotocol = some (text "hal.v1, tok");
}

-- Whoever offers the token is Ann.
abbrev ws_auth : UpgradeRequest → Authenticated
ws_auth r = somebody (str (text "ann")) empty

abbrev listens : UpgradedSocket → Bool
listens socket = true

abbrev resume : Option SessionResumeOptions
resume = some (record { enabled = true; latest = true })

abbrev allow : Option (List ForwardableHeader)
allow = some (authorization ∷ [])

-- Of the cookie, the credential and the host, only the credential is kept.
abbrev anns : UpgradedSocket
anns = record {
  user_id = named (text "ann");
  workspace_id = undefined;
  user = record { id = named (text "ann"); claims = empty };
  auth_headers =
      some (record { cookie = none; authorization = some (text "Bearer tok"); host = none });
  requested_session_id = some (text "s1");
  start_new_session = false;
}

let_in :
    (handle_upgrade new_url (text "/hal") ws_auth listens resume allow false request).answer
    ≡ opened anns
unfolding handle_upgrade or_undefined is_valid_ws_path starts_with presented_credential agreeing
    credential_from_subprotocol offered_values split_commas trimmed includes_value first_credential
    trim trim_start trim_end kept_before is_white authenticate_with admit scalar_user_id open_socket
    upgraded filter_auth_headers kept_headers unless_empty from_entries names_header
    forwarded_headers captured_headers session_id_from_upgrade param_of usable_id matches_session_id
    all_id_units is_id_unit new_session_requested is_one member
let_in = refl

-- Another credential in the header, and a user without a usable id.
refused :
    ((handle_upgrade new_url
        (text "/hal")
        ws_auth
        listens
        resume
        allow
        false
        (record request { authorization = some (text "Bearer other") })).answer
      ≡ rejected (text "400 Bad Request"))
    × ((handle_upgrade new_url
          (text "/hal")
          (λ r. somebody (number not_finite) empty)
          listens
          resume
          allow
          false
          request).answer
        ≡ rejected (text "401 Unauthorized"))
unfolding handle_upgrade or_undefined is_valid_ws_path starts_with presented_credential agreeing
    credential_from_subprotocol offered_values split_commas trimmed includes_value first_credential
    trim trim_start trim_end kept_before is_white authenticate_with admit scalar_user_id
refused = (refl, refl)

handle_upgrade-Justified_example :
    Justified new_url
      (text "/hal")
      ws_auth
      listens
      resume
      allow
      request
      (handle_upgrade new_url (text "/hal") ws_auth listens resume allow false request).answer
handle_upgrade-Justified_example =
    handle_upgrade-Justified new_url (text "/hal") ws_auth listens resume allow false request
