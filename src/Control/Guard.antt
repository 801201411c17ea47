-- ===== src/Control/Guard.antt =====
-- `guard_control_plane` of ipc_server.py, with the checks that it calls.
use yantra_os.Prelude.{
  ℕ, ◌+◌, Bool, true, false, ◌&&◌, ◌||◌, not, Option, none, some, List, [], ◌∷◌, ◌++◌, String,
  str_eq, ltb, leb, ◌==◌, if◌then◌else◌,
}
use yantra_os.Prelude.Lists.{length}
use yantra_os.Prelude.Result.{Result, ok, err, ◌>>◌, raise_if}
use yantra_os.Json.{contains_text}

abbrev pub max_request_body_bytes : ℕ
max_request_body_bytes = 8192

abbrev pub control_socket_path : String
control_socket_path = "/run/yantra-control/control.sock"

-- What `urlsplit` reports of an origin, and what `partition(" ")` makes of a text.
pub record Origin : Type 0 where
  pub scheme : String
  pub is_bare : Bool
  pub netloc : String

pub record Parts : Type 0 where
  pub before : String
  pub separated : Bool
  pub after : String

-- The library calls: a match of `_LOCAL_AUTHORITY` with its port, `urlsplit` (none where it raises;
-- `is_bare` says that there is no user, password, path, query or fragment), the methods of `str`, and
-- `int`, of a magnitude and whether it is negative.
pub record Library : Type 0 where
  pub match_authority : String → Option (Option ℕ)
  pub urlsplit : String → Option Origin
  pub lower : String → String
  pub partition : String → Parts
  pub has_space : String → Bool
  pub encode : String → List ℕ
  pub to_int : String → Option (Bool × ℕ)

-- A request: the peer (`client.host`), the server of the ASGI scope, the headers, the body's chunks.
pub record Request : Type 0 where
  pub path : String
  pub client : Option String
  pub server : Option (String × Bool)
  pub hosts : List String
  pub origins : List String
  pub authorization : List String
  pub content_lengths : List String
  pub stream : List (List ℕ)

abbrev pub is_nonempty : String → Bool
is_nonempty s = not (str_eq s "")

-- `hmac.compare_digest`, which is equality
unfoldable pub compare_digest : List ℕ → List ℕ → Bool
compare_digest [] [] = true
compare_digest [] (b ∷ bs) = false
compare_digest (a ∷ rest) [] = false
compare_digest (a ∷ rest) (b ∷ bs) = a == b && compare_digest rest bs

-- `_is_control_socket_scope`; the flag of a server is whether its second part is None
unfoldable pub is_control_socket_scope : Request → Bool
is_control_socket_scope r = elim r.client [
  | some host ↦ false
  | none ↦ elim r.server [
    | none ↦ false
    | some address ↦ str_eq address.0 control_socket_path && address.1
  ]
]

-- what the guard does with a request
pub data Verdict : Type 0 where
  unguarded : Verdict
  guarded : Result ℕ (List ℕ) → Verdict

module _ (l : Library) where
  abbrev pub port_ok : Option (Option ℕ) → Bool
  port_ok none = false
  port_ok (some none) = true
  port_ok (some (some port)) = ltb 0 port && leb port 65535

  unfoldable pub is_local_authority : String → Bool
  is_local_authority authority = port_ok (l.match_authority authority)

  abbrev pub origin_ok : Option Origin → Bool
  origin_ok none = false
  origin_ok (some o) =
      contains_text (l.lower o.scheme) ("http" ∷ "https" ∷ [])
      && o.is_bare
      && is_local_authority o.netloc

  unfoldable pub is_local_origin : String → Bool
  unfolding is_local_authority contains_text
  is_local_origin origin = origin_ok (l.urlsplit origin)

  abbrev pub allowed_clients : Bool → List String
  allowed_clients false = "127.0.0.1" ∷ "::1" ∷ "localhost" ∷ []
  allowed_clients true = "testclient" ∷ "127.0.0.1" ∷ "::1" ∷ "localhost" ∷ []

  abbrev pub client_ok : Bool → Option String → Bool
  client_ok test_mode none = false
  client_ok test_mode (some host) = contains_text host (allowed_clients test_mode)

  abbrev pub hosts_ok : List String → Bool
  hosts_ok (host ∷ []) = is_local_authority host
  hosts_ok _ = false

  abbrev pub origins_ok : List String → Bool
  origins_ok [] = true
  origins_ok (origin ∷ []) = is_local_origin origin
  origins_ok _ = false

  -- one header, of the bearer scheme, whose token is the control token
  abbrev pub bearer_ok : List ℕ → Parts → Bool
  bearer_ok token p =
      p.separated
      && is_nonempty p.after
      && not (l.has_space p.after)
      && str_eq (l.lower p.before) "bearer"
      && compare_digest (l.encode p.after) token

  unfoldable pub authorization_ok : List ℕ → List String → Bool
  unfolding compare_digest
  authorization_ok token (header ∷ []) = bearer_ok token (l.partition header)
  authorization_ok token _ = false

  unfoldable pub check_token : Bool → Option (List ℕ) → List String → Result ℕ (Unit {0})
  unfolding authorization_ok
  check_token true token headers = ok tt
  check_token false none headers = err 503
  check_token false (some token) headers = raise_if (not (authorization_ok token headers)) 401

  abbrev pub check_number : Option (Bool × ℕ) → Result ℕ (Unit {0})
  check_number none = err 400
  check_number (some n) = raise_if (n.0 || ltb max_request_body_bytes n.1) 413

  unfoldable pub check_length : List String → Result ℕ (Unit {0})
  check_length [] = ok tt
  check_length (header ∷ []) = check_number (l.to_int header)
  check_length _ = err 400

  -- the loop over the chunks of the body
  unfoldable pub read_body : List ℕ → List (List ℕ) → Result ℕ (List ℕ)
  read_body body [] = ok body
  read_body body (chunk ∷ chunks) =
      let rest = read_body (body ++ chunk) chunks in
      if ltb max_request_body_bytes (length body + length chunk) then err 413 else rest

  -- The checks of a request that is not for the health route: the status of a refusal, or the body
  -- with which the request goes on.
  unfoldable pub check_request : Bool → Option (List ℕ) → Request → Result ℕ (List ℕ)
  unfolding is_control_socket_scope is_local_origin check_token check_length read_body
  check_request test_mode token r = do
    raise_if (not (is_control_socket_scope r) && not (client_ok test_mode r.client)) 403
    raise_if (not (hosts_ok r.hosts)) 403
    raise_if (not (origins_ok r.origins)) 403
    check_token (is_control_socket_scope r) token r.authorization
    check_length r.content_lengths
    read_body [] r.stream

  unfoldable pub guard_control_plane : Bool → Option (List ℕ) → Request → Verdict
  unfolding check_request
  guard_control_plane test_mode token r =
      if str_eq r.path "/health" then unguarded else guarded (check_request test_mode token r)
