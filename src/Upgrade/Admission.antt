-- ===== src/Upgrade/Admission.antt =====
-- transport/ws/connectionHandler.ts (createUpgradeHandler): who is let in.
use halengine.Prelude.{
  ◌≡◌, ◌⊎◌, refl, Text, text, Bool, true, false, Option, none, some, List, if◌then◌else◌, if-either,
  Bool-cases, Option-cases, inl, inr, Json, Fields,
}
use halengine.Session.{UserId}
use halengine.Frames.{matches_session_id}
use halengine.Resume.{SessionResumeOptions, is_on}
use halengine.Upgrade.{
  ForwardableHeader, header_of, names_header, is_set, forwarded_headers, UpgradeRequest,
  PresentedCredential, agreed, conflicting, or_undefined, presented_credential, Authenticated,
  throws, nobody, somebody, scalar_user_id, Target, UpgradedSocket, Reply, rejected, opened,
  closed_after, captured_headers, is_valid_ws_path, usable_id, session_id_from_upgrade, upgraded,
  open_socket, admit, authenticate_with, handle_upgrade,
}
use halengine.Upgrade.Capture.{
  kept_header, kept_header-filter_auth_headers, OneCredential, presented_credential-OneCredential,
}

module _ (new_url : Text → Option Target) (base_path : Text)
    (ws_auth : UpgradeRequest → Authenticated) (listens : UpgradedSocket → Bool)
    (resume : Option SessionResumeOptions) (forward_headers : Option (List ForwardableHeader)) where
  -- What a socket owes its request.
  pub record Admitted (request : UpgradeRequest) (socket : UpgradedSocket) : Type 0 where
    pub has_host : is_set (or_undefined request.host) ≡ true
    pub on_path : is_valid_ws_path new_url base_path request.url ≡ true
    pub id : Json
    pub claims : Fields
    pub vouched : ws_auth request ≡ somebody id claims
    pub usable : scalar_user_id id ≡ some socket.user_id
    pub credential : Option Text
    pub one_credential : OneCredential request credential
    pub forwarded :
        (name : ForwardableHeader)
        → kept_header name socket.auth_headers ≡ (
            if names_header name (forwarded_headers forward_headers)
            then header_of name (captured_headers request credential)
            else none)
    pub named_id :
        (session_id : Text)
        → socket.requested_session_id ≡ some session_id
        → (is_on resume ≡ true) × (matches_session_id session_id ≡ true)

  -- The answers that an upgrade may get, and what each takes.
  pub data Justified (request : UpgradeRequest) : Reply → Type 0 where
    lets_in :
        {socket : UpgradedSocket}
        → Admitted request socket
        → listens socket ≡ true
        → Justified request (opened socket)
    closes_after :
        {socket : UpgradedSocket}
        → Admitted request socket
        → listens socket ≡ false
        → Justified request (closed_after socket)
    malformed :
        (is_set (or_undefined request.host) ≡ false)
          ⊎ ((is_valid_ws_path new_url base_path request.url ≡ false)
              ⊎ (presented_credential request ≡ conflicting))
        → Justified request (rejected (text "400 Bad Request"))
    unauthorized :
        (ws_auth request ≡ nobody)
          ⊎ ((id : Json) × (claims : Fields) × (ws_auth request ≡ somebody id claims)
              × (scalar_user_id id ≡ none))
        → Justified request (rejected (text "401 Unauthorized"))
    faulty :
        ws_auth request ≡ throws → Justified request (rejected (text "500 Internal Server Error"))

  usable_id-matches :
      (o : Option Text) (session_id : Text)
      → usable_id o ≡ some session_id
      → matches_session_id session_id ≡ true
  unfolding usable_id
  usable_id-matches none session_id e = absurd (cc e)
  usable_id-matches (some id) session_id e =
      if-either (λ (r : Option Text). r ≡ some session_id → matches_session_id session_id ≡ true)
        (matches_session_id id) (λ m k. cc (m, k)) (λ _ k. absurd (cc k)) e

  requested_lem :
      (b : Bool) (url session_id : Text)
      → (if b then session_id_from_upgrade new_url base_path url else none) ≡ some session_id
      → (b ≡ true) × (matches_session_id session_id ≡ true)
  unfolding session_id_from_upgrade
  requested_lem false url session_id e = absurd (cc e)
  requested_lem true url session_id e = (
    refl,
    if-either (λ (r : Option Text). r ≡ some session_id → matches_session_id session_id ≡ true)
        (is_valid_ws_path new_url base_path url) (λ _ k. usable_id-matches _ session_id k)
        (λ _ k. absurd (cc k)) e,
  )

  upgraded-Admitted :
      (request : UpgradeRequest) (credential : Option Text) (id : Json) (claims : Fields)
      (user_id : UserId)
      → is_set (or_undefined request.host) ≡ true
      → is_valid_ws_path new_url base_path request.url ≡ true
      → presented_credential request ≡ agreed credential
      → ws_auth request ≡ somebody id claims
      → scalar_user_id id ≡ some user_id
      → Admitted request (
          upgraded new_url base_path ws_auth listens resume forward_headers request credential
            user_id claims)
  unfolding upgraded
  upgraded-Admitted request credential id claims user_id h p c v u = record {
    has_host = h;
    on_path = p;
    id = id;
    claims = claims;
    vouched = v;
    usable = u;
    credential = credential;
    one_credential = presented_credential-OneCredential request credential c;
    forwarded =
        kept_header-filter_auth_headers (captured_headers request credential)
          (forwarded_headers forward_headers);
    named_id = λ s e. requested_lem (is_on resume) request.url s e;
  }

  open_socket-Justified :
      (reported : Bool) (request : UpgradeRequest) (socket : UpgradedSocket)
      → Admitted request socket
      → Justified request
          (open_socket new_url base_path ws_auth listens resume forward_headers reported request
            socket).answer
  unfolding open_socket
  open_socket-Justified reported request socket a =
      if-either (Justified request) (listens socket) (λ l. lets_in a l) (λ l. closes_after a l)

  admit-Justified :
      (reported : Bool) (request : UpgradeRequest) (credential : Option Text)
      (answer : Authenticated)
      → ws_auth request ≡ answer
      → ((id : Json) (claims : Fields) (user_id : UserId)
          → answer ≡ somebody id claims
          → scalar_user_id id ≡ some user_id
          → Admitted request (
              upgraded new_url base_path ws_auth listens resume forward_headers request credential
                user_id claims))
      → Justified request
          (admit new_url base_path ws_auth listens resume forward_headers reported request
            credential answer).answer
  unfolding admit
  admit-Justified reported request credential throws v f = faulty v
  admit-Justified reported request credential nobody v f = unauthorized (inl v)
  admit-Justified reported request credential (somebody id claims) v f =
      elim (Option-cases (scalar_user_id id)) [
        | inl e ↦ rw (e, admit) (unauthorized (inr (id, claims, v, e)))
        | inr (user_id, e) ↦
            rw (e, admit) (open_socket-Justified reported request _ (f id claims user_id refl e))
      ]

  -- However the authenticator and the listeners behave: a request is let in only with a host, on the engine's
  -- path, with one credential where its header and its subprotocol name any, and as a user whose id is a
  -- string or a finite number and whom the authenticator answered for this request; the socket then keeps
  -- exactly the headers that the deployer allows, with that credential as its Authorization header, and
  -- names a session id only while resume is on and in the shape of one. Every other request is answered
  -- 400, 401 or 500 for the one reason that each of them has.
  pub handle_upgrade-Justified :
      (reported : Bool) (request : UpgradeRequest)
      → Justified request
          (handle_upgrade new_url base_path ws_auth listens resume forward_headers reported
            request).answer
  unfolding handle_upgrade authenticate_with
  handle_upgrade-Justified reported request =
      elim (Bool-cases (is_set (or_undefined request.host))) [
        | inr h ↦ rw h (malformed (inl h))
        | inl h ↦ elim (Bool-cases (is_valid_ws_path new_url base_path request.url)) [
          | inr p ↦ rw (h, p) (malformed (inr (inl p)))
          | inl p ↦ rw (h, p) (by_credential h p (presented_credential request) refl)
        ]
      ]
    where
      by_credential :
          is_set (or_undefined request.host) ≡ true
          → is_valid_ws_path new_url base_path request.url ≡ true
          → (c : PresentedCredential) → presented_credential request ≡ c
          → Justified request
              (authenticate_with new_url base_path ws_auth listens resume forward_headers reported
                request c).answer
      by_credential h p conflicting e = malformed (inr (inr e))
      by_credential h p (agreed credential) e =
          admit-Justified reported request credential (ws_auth request) refl
            (λ id claims user_id v u.
              upgraded-Admitted request credential id claims user_id h p e v u)
