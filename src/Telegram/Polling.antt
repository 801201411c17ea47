-- ===== src/Telegram/Polling.antt =====
-- One round of `poll_notifications` of telegram_gateway.py: the queue of failed notifications and the
-- pause until the next round.
use yantra_os.Prelude.{
  ℕ, ◌*◌, ◌≤◌, min, Bool, inl, inr, Bool-cases, List, [], ◌∷◌, ◌++◌, leb, leb→le, arith,
  if◌then◌else◌,
}
use yantra_os.Prelude.Lists.{length, take, length-append, length-take}

abbrev pub max_retries : ℕ
max_retries = 3

-- What the request for new notifications ends with: a list of them (bounded texts, and empty where
-- the answer holds no list), another status than 200, or an exception.
pub data Fetched : Type 0 where
  notifications : List (List ℕ) → Fetched
  other_status raised : Fetched

pub record Poller : Type 0 where
  pub backoff : ℕ
  pub retry_queue : List (List ℕ)

-- the notifications of a list that cannot be sent
unfoldable pub failures : (List ℕ → Bool) → List (List ℕ) → List (List ℕ)
failures send [] = []
failures send (n ∷ ns) = let rest = failures send ns in if send n then rest else n ∷ rest

unfoldable pub keep_failed : List (List ℕ) → List (List ℕ)
keep_failed ns = if leb (length ns) (max_retries * 10) then ns else []

unfoldable pub poll_round : (List ℕ → Bool) → (List ℕ → Bool) → Fetched → Poller → Poller
unfolding failures keep_failed take
poll_round again send (notifications ns) p = record {
  backoff = 3;
  retry_queue = keep_failed (failures again p.retry_queue) ++ failures send (take 10 ns);
}
poll_round again send other_status p = record {
  backoff = 3;
  retry_queue = keep_failed (failures again p.retry_queue);
}
poll_round again send raised p = record {
  backoff = min (p.backoff * 2) 60;
  retry_queue = keep_failed (failures again p.retry_queue);
}

length-failures :
    (send : List ℕ → Bool) (ns : List (List ℕ)) → length (failures send ns) ≤ length ns
unfolding failures
length-failures send [] = omega arith
length-failures send (n ∷ ns) = elim (Bool-cases (send n)) [
  | inl sent ↦ simp sent (omega (arith, length-failures send ns))
  | inr lost ↦ simp lost (omega (arith, length-failures send ns))
]

length-keep_failed : (ns : List (List ℕ)) → length (keep_failed ns) ≤ 30
unfolding keep_failed
length-keep_failed ns = elim (Bool-cases (leb (length ns) (max_retries * 10))) [
  | inl few ↦ simp few (leb→le (length ns) 30 few)
  | inr many ↦ simp many (omega arith)
]

-- The queue of failed notifications never holds more than forty, and the pause stays between three
-- seconds and a minute.
abbrev pub IsPaced : Poller → Type 0
IsPaced p = (length p.retry_queue ≤ 40) × (3 ≤ p.backoff) × (p.backoff ≤ 60)

-- Every round keeps the poller paced, whatever is sent and fetched.
pub poll_round-IsPaced :
    (again send : List ℕ → Bool) (f : Fetched) (p : Poller)
    → IsPaced p
    → IsPaced (poll_round again send f p)
unfolding poll_round
poll_round-IsPaced again send (notifications ns) p (few, least, most) =
    let kept = length-keep_failed (failures again p.retry_queue) in
    let fresh = length-failures send (take 10 ns) in
    let cut = length-take 10 ns in
    let all_of_them =
      length-append (keep_failed (failures again p.retry_queue)) (failures send (take 10 ns)) in
    (omega arith, omega arith, omega arith)
poll_round-IsPaced again send other_status p (few, least, most) =
    let kept = length-keep_failed (failures again p.retry_queue) in
    (omega arith, omega arith, omega arith)
poll_round-IsPaced again send raised p (few, least, most) =
    let kept = length-keep_failed (failures again p.retry_queue) in
    (omega arith, omega arith, omega arith)
