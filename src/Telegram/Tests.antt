-- ===== src/Telegram/Tests.antt =====
-- A message of the tests, and the theorem at it.
use yantra_os.Prelude.{ℕ, ◌≡◌, refl, true, some, List, [], ◌∷◌}
use yantra_os.Telegram.Chunks.{safe_send, send_all}
use yantra_os.Telegram.Polling.{Poller}
use yantra_os.Telegram.Splitting.{Pieces, safe_send_total}

runs : Unit {0}
unfolding safe_send send_all
runs = tt

-- An empty message is sent as the placeholder.
empty_sent : safe_send (40 ∷ 41 ∷ []) (λ t. t) (λ p. true) [] ≡ some true
unfolding runs
empty_sent = refl

safe_send_total_example :
    (pieces : List (List ℕ)) × Pieces (104 ∷ 10 ∷ 105 ∷ []) pieces
    × (safe_send (40 ∷ 41 ∷ []) (λ t. t) (λ p. true) (104 ∷ 10 ∷ 105 ∷ [])
        ≡ some (send_all (λ p. true) pieces))
safe_send_total_example = safe_send_total (40 ∷ 41 ∷ []) (λ t. t) (λ p. true) (104 ∷ 10 ∷ 105 ∷ [])

abbrev poller : Poller
poller = record { backoff = 40; retry_queue = (104 ∷ []) ∷ [] }
