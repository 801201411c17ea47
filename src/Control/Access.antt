-- ===== src/Control/Access.antt =====
-- What a request has shown that passes the guard.
use yantra_os.Prelude.{
  ℕ, ◌+◌, ◌≤◌, ◌≡◌, refl, sym, subst, ◌∙◌, Bool, true, false, ◌&&◌, not, inl, inr, Bool-cases,
  Option, none, some, List, [], ◌∷◌, ◌++◌, String, ltb, arith, ◌==◌, &&-left, &&-right,
  ltb_false→le, eqb→eq,
}
use yantra_os.Prelude.Lists.{length, length-append}
use yantra_os.Prelude.Result.{ok, raise_if-eq-ok, >>=-eq-ok, if_err-eq-ok}
use yantra_os.Control.Guard.{
  Library, Request, max_request_body_bytes, is_control_socket_scope, client_ok, hosts_ok,
  origins_ok, authorization_ok, compare_digest, check_token, check_length, read_body, check_request,
}
use mathlib.Core.List.{flatten, append-nil, append_assoc}

read_body-eq-ok :
    (l : Library) (body : List ℕ) (chunks : List (List ℕ)) (all_read : List ℕ)
    → length body ≤ max_request_body_bytes
    → read_body l body chunks ≡ ok all_read
    → (body ++ flatten chunks ≡ all_read) × (length all_read ≤ max_request_body_bytes)
unfolding read_body flatten
read_body-eq-ok l body [] all_read h e =
    let same : body ≡ all_read = cc in
    (append-nil body ∙ same, subst (λ b. length b ≤ max_request_body_bytes) same h)
read_body-eq-ok l body (chunk ∷ chunks) all_read h e =
    let (small, k) =
      if_err-eq-ok (ltb max_request_body_bytes (length body + length chunk)) 413
        (read_body l (body ++ chunk) chunks) e in
    let fits = ltb_false→le max_request_body_bytes (length body + length chunk) small in
    let (whole, bound) =
      read_body-eq-ok l (body ++ chunk) chunks all_read (omega (arith, length-append body chunk))
        k in
    (sym (append_assoc body chunk (flatten chunks)) ∙ whole, bound)

compare_digest→eq : (xs ys : List ℕ) → compare_digest xs ys ≡ true → xs ≡ ys
unfolding compare_digest
compare_digest→eq [] [] h = refl
compare_digest→eq [] (y ∷ ys) h = cc
compare_digest→eq (x ∷ xs) [] h = cc
compare_digest→eq (x ∷ xs) (y ∷ ys) h =
    let heads : x ≡ y = eqb→eq x y (&&-left (x == y) (compare_digest xs ys) h) in
    let tails = compare_digest→eq xs ys (&&-right (x == y) (compare_digest xs ys) h) in
    λ i. heads i ∷ tails i

-- The peer of a request is the control socket, or a client on this machine that has sent one header
-- with the control token.
pub data Authorised (l : Library) (test_mode : Bool) (token : Option (List ℕ)) (r : Request)
    : Type 0 where
  by_socket : is_control_socket_scope r ≡ true → Authorised l test_mode token r
  by_token :
      (t : List ℕ) (header : String)
      → client_ok l test_mode r.client ≡ true
      → token ≡ some t
      → r.authorization ≡ header ∷ []
      → l.encode (l.partition header).after ≡ t
      → Authorised l test_mode token r

authorization_ok-header :
    (l : Library) (t : List ℕ) (headers : List String)
    → authorization_ok l t headers ≡ true
    → (header : String) × (headers ≡ header ∷ []) × (l.encode (l.partition header).after ≡ t)
unfolding authorization_ok
authorization_ok-header l t [] h = cc
authorization_ok-header l t (a ∷ b ∷ more) h = cc
authorization_ok-header l t (header ∷ []) h =
    (header, refl, compare_digest→eq (l.encode (l.partition header).after) t (ground arith))

check_token-header :
    (l : Library) (token : Option (List ℕ)) (headers : List String)
    → check_token l false token headers ≡ ok tt
    → (t : List ℕ) × (header : String) × (token ≡ some t)
      × (headers ≡ header ∷ [])
      × (l.encode (l.partition header).after ≡ t)
unfolding check_token
check_token-header l none headers e = cc
check_token-header l (some t) headers e =
    let valid : authorization_ok l t headers ≡ true =
      elim (Bool-cases (authorization_ok l t headers)) [
        | inl good ↦ good
        | inr bad ↦ let k = simp bad at e in cc
      ] in
    let (header, one, same) = authorization_ok-header l t headers valid in
    (t, header, refl, one, same)

-- A request that passes comes by the control socket, or from this machine with the one control token;
-- it names one local host and no foreign origin; and the body that it goes on with is all that was
-- sent and within the limit.
pub check_request-Authorised :
    (l : Library) (test_mode : Bool) (token : Option (List ℕ)) (r : Request) (body : List ℕ)
    → check_request l test_mode token r ≡ ok body
    → Authorised l test_mode token r
      × (hosts_ok l r.hosts ≡ true)
      × (origins_ok l r.origins ≡ true)
      × (flatten r.stream ≡ body)
      × (length body ≤ max_request_body_bytes)
unfolding check_request
check_request-Authorised l test_mode token r body e =
    let at_socket = is_control_socket_scope r in
    let (peer, k₁) =
      raise_if-eq-ok (not at_socket && not (client_ok l test_mode r.client)) 403 _ e in
    let (host, k₂) = raise_if-eq-ok (not (hosts_ok l r.hosts)) 403 _ k₁ in
    let (origin, k₃) = raise_if-eq-ok (not (origins_ok l r.origins)) 403 _ k₂ in
    let (u, tokened, k₄) = >>=-eq-ok (check_token l at_socket token r.authorization) _ k₃ in
    let (v, counted, k₅) = >>=-eq-ok (check_length l r.content_lengths) _ k₄ in
    let (whole, bound) = read_body-eq-ok l [] r.stream body (omega arith) k₅ in
    (authorised at_socket refl peer tokened, ground arith, ground arith, whole, bound)
  where
    authorised :
        (at_socket : Bool)
        → is_control_socket_scope r ≡ at_socket
        → (not at_socket && not (client_ok l test_mode r.client)) ≡ false
        → check_token l at_socket token r.authorization ≡ ok tt
        → Authorised l test_mode token r
    authorised true s p k = by_socket s
    authorised false s p k =
        let (t, header, configured, one, same) = check_token-header l token r.authorization k in
        by_token t header (ground arith) configured one same
