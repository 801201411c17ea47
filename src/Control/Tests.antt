-- ===== src/Control/Tests.antt =====
-- Requests and notifications of the tests, and the theorems at them.
use yantra_os.Prelude.{ℕ, ◌+◌, ◌≤◌, ◌≡◌, refl, arith, true, false, none, some, List, [], ◌∷◌, ◌++◌}
use yantra_os.Prelude.Lists.{length, length-take, take}
use yantra_os.Prelude.Result.{ok, err}
use yantra_os.Control.Guard.{
  Library, Request, hosts_ok, origins_ok, max_request_body_bytes, check_request,
  guard_control_plane, guarded,
}
use yantra_os.Control.Access.{Authorised, check_request-Authorised}
use yantra_os.Control.Inject.{Engine}
use yantra_os.Control.Notifications.{
  max_notification_count, max_response_bytes, consume_notifications,
}
use yantra_os.Control.Longest.{IsMonotone, Consumed, consume_notifications-Consumed}
use mathlib.Core.List.{flatten}

abbrev library : Library
library = record {
  match_authority = λ s. some none;
  urlsplit = λ s. none;
  lower = λ s. s;
  partition = λ s. record { before = "bearer"; separated = true; after = s };
  has_space = λ s. false;
  encode = λ s. 65 ∷ 66 ∷ [];
  to_int = λ s. some (false, 2);
}

abbrev request : Request
request = record {
  path = "/inject";
  client = some "127.0.0.1";
  server = none;
  hosts = "localhost" ∷ [];
  origins = [];
  authorization = "AB" ∷ [];
  content_lengths = "2" ∷ [];
  stream = (123 ∷ []) ∷ (125 ∷ []) ∷ [];
}

runs : Unit {0}
unfolding guard_control_plane
runs = tt

passes : check_request library false (some (65 ∷ 66 ∷ [])) request ≡ ok (123 ∷ 125 ∷ [])
unfolding runs
passes = refl

wrong_token : guard_control_plane library false (some (65 ∷ [])) request ≡ guarded (err 401)
unfolding runs
wrong_token = refl

no_token : guard_control_plane library false none request ≡ guarded (err 503)
unfolding runs
no_token = refl

remote :
    guard_control_plane library false none record request { client = some "10.0.0.1" }
    ≡ guarded (err 403)
unfolding runs
remote = refl

check_request-Authorised_example :
    Authorised library false (some (65 ∷ 66 ∷ [])) request
    × (hosts_ok library ("localhost" ∷ []) ≡ true)
    × (origins_ok library [] ≡ true)
    × (flatten {A = ℕ} ((123 ∷ []) ∷ (125 ∷ []) ∷ []) ≡ 123 ∷ 125 ∷ [])
    × (length {A = ℕ} (123 ∷ 125 ∷ []) ≤ max_request_body_bytes)
check_request-Authorised_example =
    check_request-Authorised library false (some (65 ∷ 66 ∷ [])) request (123 ∷ 125 ∷ []) passes

-- a response whose texts leave room for one character
abbrev total_length : List (List ℕ) → ℕ
total_length [] = 16383
total_length (text ∷ texts) = length text + total_length texts

abbrev queue : List (List ℕ)
queue = (104 ∷ 105 ∷ []) ∷ [] ∷ (106 ∷ []) ∷ []

first_letter : consume_notifications total_length queue ≡ ((104 ∷ []) ∷ [] ∷ [] ∷ [], [])
unfolding consume_notifications
first_letter = refl

total_length-append :
    (taken : List (List ℕ)) (text : List ℕ)
    → total_length (taken ++ text ∷ []) ≡ total_length taken + length text
total_length-append [] text = omega arith
total_length-append (t ∷ taken) text =
    let rest = total_length-append taken text in omega (arith, rest)

total_length-IsMonotone : IsMonotone total_length
total_length-IsMonotone taken text m n h =
    let a = total_length-append taken (take m text) in
    let b = total_length-append taken (take n text) in
    let c = length-take m text in let d = length-take n text in omega (arith, a, b, c, d, h)

consume_notifications-Consumed_example :
    let (sent, left) = consume_notifications total_length queue in
    Consumed total_length max_notification_count [] queue sent left
    × (total_length sent ≤ max_response_bytes)
    × (length sent ≤ max_notification_count)
    × (length sent + length left ≡ 3)
consume_notifications-Consumed_example =
    consume_notifications-Consumed total_length queue total_length-IsMonotone (omega arith)

abbrev engine : Engine
engine = record {
  pending_injections = "a" ∷ [];
  conversation_history = [];
  notifications = [];
  thought_stream = [];
  consents = [];
}
