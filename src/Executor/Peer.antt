-- ===== src/Executor/Peer.antt =====
-- `_resolve_authorized_uid`, `_peer_credentials`, `_write_response` and `_handle_client`: who may ask,
-- and what is answered.
use yantra_os.Prelude.{
  ℕ, zero, suc, ◌≤◌, ◌<◌, ◌≡◌, ◌≢◌, refl, sym, subst, ◌⊎◌, inl, inr, Bool, true, false, not, Option,
  none, some, List, [], ◌∷◌, ◌++◌, ltb, ◌==◌, ltb_false→le, eqb→eq, if◌then◌else◌, arith,
}
use yantra_os.Prelude.Lists.{length, length-append}
use yantra_os.Prelude.Result.{Result, ok, err}
use yantra_os.Json.{Json}
use yantra_os.Executor.Intent.{Refusal}
use yantra_os.Executor.Dispatch.{Machine, Event, Response, process_intent}
use yantra_os.Executor.Privilege.{Permits, idle, refuse, process_intent-Permits}

abbrev pub max_payload_bytes : ℕ
max_payload_bytes = 16384

abbrev pub max_response_bytes : ℕ
max_response_bytes = 16384

-- one of the three C integers of `SO_PEERCRED`: not negative, or less than 0
pub data Credential : Type 0 where
  natural below : ℕ → Credential

pub record Credentials : Type 0 where
  pub pid : Credential
  pub uid : Credential
  pub gid : Credential

-- `_peer_credentials`, of what `getsockopt` and `unpack` give: the pid and the uid, none where it raises
unfoldable pub peer_credentials : Option Credentials → Option (ℕ × ℕ)
peer_credentials none = none
peer_credentials (some c) = checked c.pid c.uid c.gid
  where
    checked : Credential → Credential → Credential → Option (ℕ × ℕ)
    checked (natural (suc p)) (natural u) (natural g) = some (suc p, u)
    checked _ _ _ = none

-- `_resolve_authorized_uid`, of the account's uid, none where there is no account
unfoldable pub resolve_authorized_uid : Option ℕ → Option ℕ
resolve_authorized_uid none = none
resolve_authorized_uid (some zero) = none
resolve_authorized_uid (some (suc u)) = some (suc u)

-- the answers of the handler's own
pub data Reply : Type 0 where
  unauthorized_peer unauthorized_uid empty_payload payload_too_large invalid_json : Reply
  response_too_large : Reply
  responded : Response → Reply

-- What `json.loads(raw.decode("utf-8"))` does: a value, one of the two errors that are answered, or
-- another.
pub data LoadError : Type 0 where
  malformed other : LoadError

-- What the handler calls: the reading of a payload, and `json.dumps` with its encoding.
pub record Codec : Type 0 where
  pub loads : List ℕ → Result LoadError Json
  pub dumps : Reply → List ℕ

-- What a connection meets: the credentials of the peer, the authorized account, and the line it sends,
-- none where `readline` raises or times out.
pub record Peer : Type 0 where
  pub credentials : Option Credentials
  pub account : Option ℕ
  pub line : Option (List ℕ)

unfoldable pub write_response : Codec → Reply → List ℕ
write_response c r =
    let encoded = c.dumps r ++ 10 ∷ [] in
    if ltb max_response_bytes (length encoded)
    then c.dumps response_too_large ++ 10 ∷ []
    else encoded

-- What a connection leaves behind: the events, and the bytes that are written.
pub record Served : Type 0 where
  pub events : List Event
  pub written : Option (List ℕ)

abbrev pub answers : Codec → Reply → Served
answers c r = record { events = []; written = some (write_response c r) }

abbrev pub drops : Served
drops = record { events = []; written = none }

-- an exception of `_process_intent` is logged, and nothing is written
abbrev pub answer_result : Codec → Result Refusal Response → Option (List ℕ)
answer_result c (ok r) = some (write_response c (responded r))
answer_result c (err e) = none

unfoldable pub serve_payload : Machine → Codec → Result LoadError Json → Served
unfolding write_response process_intent
serve_payload m c (ok payload) =
    let r = process_intent m payload in
    record { events = r.events; written = answer_result c r.result }
serve_payload m c (err malformed) = answers c invalid_json
serve_payload m c (err other) = drops

unfoldable pub serve_line : Machine → Codec → Option (List ℕ) → Served
unfolding serve_payload
serve_line m c none = drops
serve_line m c (some []) = answers c empty_payload
serve_line m c (some (b ∷ raw)) =
    if ltb max_payload_bytes (length (b ∷ raw))
    then answers c payload_too_large
    else serve_payload m c (c.loads (b ∷ raw))

unfoldable pub serve_peer : Machine → Codec → Option (List ℕ) → Option (ℕ × ℕ) → Option ℕ → Served
unfolding serve_line
serve_peer m c line (some (pid, uid)) (some authorized) =
    if not (uid == authorized) then answers c unauthorized_uid else serve_line m c line
serve_peer m c line _ _ = answers c unauthorized_peer

-- `_handle_client`
unfoldable pub handle_client : Machine → Codec → Peer → Served
unfolding serve_peer peer_credentials resolve_authorized_uid
handle_client m c p =
    serve_peer m c p.line (peer_credentials p.credentials) (resolve_authorized_uid p.account)

-- Who may have anything done: a process of the authorized account, which is not root, with a payload
-- that is within the limit.
abbrev pub IsAuthorized : Peer → Type 0
IsAuthorized p =
    (pid : ℕ) × (uid : ℕ) × (raw : List ℕ) × (peer_credentials p.credentials ≡ some (pid, uid))
    × (p.account ≡ some uid)
    × (uid ≢ 0)
    × (p.line ≡ some raw)
    × (length raw ≤ max_payload_bytes)

serve_payload-Permits :
    (m : Machine) (c : Codec) (r : Result LoadError Json)
    → Permits m idle (serve_payload m c r).events
unfolding serve_payload
serve_payload-Permits m c (ok payload) = process_intent-Permits m payload
serve_payload-Permits m c (err malformed) = refuse
serve_payload-Permits m c (err other) = refuse

account_lem :
    (account : Option ℕ) (uid : ℕ)
    → resolve_authorized_uid account ≡ some uid
    → (account ≡ some uid) × (uid ≢ 0)
unfolding resolve_authorized_uid
account_lem none uid h = cc
account_lem (some zero) uid h = cc
account_lem (some (suc u)) uid h = (h, nonzero u uid h)
  where
    nonzero : (u uid : ℕ) → ◌≡◌ {A = Option ℕ} (some (suc u)) (some uid) → uid ≢ 0
    nonzero u uid h = λ z. grind (arith, h, z)

-- what is served keeps to the protocol, and is nothing unless the peer is authorized
abbrev IsServed : Machine → Peer → Served → Type 0
IsServed m p s = Permits m idle s.events × ((s.events ≡ []) ⊎ IsAuthorized p)

line-IsServed :
    (m : Machine) (c : Codec) (p : Peer) (pid uid : ℕ)
    → peer_credentials p.credentials ≡ some (pid, uid)
    → (p.account ≡ some uid) × (uid ≢ 0)
    → (line : Option (List ℕ)) → p.line ≡ line
    → IsServed m p (serve_line m c line)
unfolding serve_line
line-IsServed m c p pid uid known named none h = (refuse, inl refl)
line-IsServed m c p pid uid known named (some []) h = (refuse, inl refl)
line-IsServed m c p pid uid known named (some (b ∷ raw)) h =
    sized (ltb max_payload_bytes (length (b ∷ raw))) refl
  where
    sized :
        (long : Bool)
        → ltb max_payload_bytes (length (b ∷ raw)) ≡ long
        → IsServed m p
            (if long then answers c payload_too_large else serve_payload m c (c.loads (b ∷ raw)))
    sized true l = (refuse, inl refl)
    sized false l = (
      serve_payload-Permits m c (c.loads (b ∷ raw)),
      inr (
        pid,
        uid,
        b ∷ raw,
        known,
        named.0,
        named.1,
        h,
        ltb_false→le max_payload_bytes (length (b ∷ raw)) l,
      ),
    )

peer-IsServed :
    (m : Machine) (c : Codec) (p : Peer) (peer : Option (ℕ × ℕ)) (account : Option ℕ)
    → peer_credentials p.credentials ≡ peer
    → resolve_authorized_uid p.account ≡ account
    → IsServed m p (serve_peer m c p.line peer account)
unfolding serve_peer
peer-IsServed m c p none account k a = (refuse, inl refl)
peer-IsServed m c p (some (pid, uid)) none k a = (refuse, inl refl)
peer-IsServed m c p (some (pid, uid)) (some authorized) k a = matched (uid == authorized) refl
  where
    matched :
        (same : Bool)
        → (uid == authorized) ≡ same
        → IsServed m p (if not same then answers c unauthorized_uid else serve_line m c p.line)
    matched false e = (refuse, inl refl)
    matched true e =
        line-IsServed m c p pid uid k
          (subst (λ u. (p.account ≡ some u) × (u ≢ 0)) (sym (eqb→eq uid authorized e))
            (account_lem p.account authorized a))
          p.line refl

-- A connection keeps to the protocol of the executor, and its events are none unless the peer is a
-- process of the authorized account, which is not root, and the payload is within the limit.
pub handle_client-Permits :
    (m : Machine) (c : Codec) (p : Peer)
    → Permits m idle (handle_client m c p).events
      × (((handle_client m c p).events ≡ []) ⊎ IsAuthorized p)
unfolding handle_client
handle_client-Permits m c p =
    peer-IsServed m c p (peer_credentials p.credentials) (resolve_authorized_uid p.account) refl
      refl

-- What is written is within the limit, where the answer that stands in for a longer one is.
pub write_response-le :
    (c : Codec) (r : Reply)
    → length (c.dumps response_too_large) < max_response_bytes
    → length (write_response c r) ≤ max_response_bytes
unfolding write_response
write_response-le c r h = sized (ltb max_response_bytes (length (c.dumps r ++ 10 ∷ []))) refl
  where
    sized :
        (long : Bool)
        → ltb max_response_bytes (length (c.dumps r ++ 10 ∷ [])) ≡ long
        → length (if long then c.dumps response_too_large ++ 10 ∷ [] else c.dumps r ++ 10 ∷ [])
          ≤ max_response_bytes
    sized true l = omega (arith, h, length-append (c.dumps response_too_large) (10 ∷ []))
    sized false l = ltb_false→le max_response_bytes (length (c.dumps r ++ 10 ∷ [])) l
