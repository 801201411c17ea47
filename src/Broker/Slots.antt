-- ===== src/Broker/Slots.antt =====
-- `_active_requests` over all connections: the first and the last part of `_handle_client` as the
-- steps of a server whose connections interleave at every `await`.
use yantra_os.Prelude.{
  ℕ, ◌+◌, ◌≤◌, ◌<◌, suc, ◌≡◌, refl, Bool, true, false, List, [], ◌∷◌, ◌++◌, arith,
}
use yantra_os.Broker.Handler.{
  Host, Client, Entry, unknown, stranger, busy, admitted, enter, after_entry, is_admitted, leave,
  max_active_requests, handle_client,
}
use yantra_os.Broker.Execution.{enter-admitted}

-- The counter, for each connection that is being handled whether it was admitted, and how many slots
-- a close has kept that was cancelled.
pub record Server : Type 0 where
  pub active : ℕ
  pub handlers : List Bool
  pub lost : ℕ

unfoldable pub count_admitted : List Bool → ℕ
count_admitted [] = 0
count_admitted (true ∷ bs) = suc (count_admitted bs)
count_admitted (false ∷ bs) = count_admitted bs

abbrev pub lost_by : Bool → Bool → ℕ
lost_by true false = 1
lost_by _ _ = 0

-- A connection arrives and runs up to its first `await`; or one that is being handled ends.
pub data Step (h : Host) : Server → Server → Type 0 where
  arrive :
      (c : Client) (s : Server)
      → Step h s record {
        active = after_entry (enter h c s.active) s.active;
        handlers = is_admitted (enter h c s.active) ∷ s.handlers;
        lost = s.lost;
      }
  depart :
      (c : Client) (active lost : ℕ) (before after : List Bool) (was_admitted : Bool)
      → Step h
          record { active = active; handlers = before ++ was_admitted ∷ after; lost = lost }
          record {
            active = leave was_admitted c.closes active;
            handlers = before ++ after;
            lost = lost + lost_by was_admitted c.closes;
          }

pub data Reaches (h : Host) : Server → Type 0 where
  start : Reaches h record { active = 0; handlers = []; lost = 0 }
  step : {s t : Server} → Reaches h s → Step h s t → Reaches h t

-- The counter is the number of admitted connections and of lost slots, and is within the limit.
abbrev pub IsCounted : Server → Type 0
IsCounted s = (s.active ≡ count_admitted s.handlers + s.lost) × (s.active ≤ max_active_requests)

count_admitted-append :
    (xs ys : List Bool) → count_admitted (xs ++ ys) ≡ count_admitted xs + count_admitted ys
unfolding count_admitted
count_admitted-append [] ys = omega arith
count_admitted-append (true ∷ xs) ys = omega (arith, count_admitted-append xs ys)
count_admitted-append (false ∷ xs) ys = omega (arith, count_admitted-append xs ys)

arrive-IsCounted :
    (entry : Entry) (s : Server)
    → (is_admitted entry ≡ true → s.active < max_active_requests)
    → IsCounted s
    → IsCounted record {
      active = after_entry entry s.active;
      handlers = is_admitted entry ∷ s.handlers;
      lost = s.lost;
    }
unfolding count_admitted
arrive-IsCounted (unknown e) s free h = h
arrive-IsCounted stranger s free h = h
arrive-IsCounted busy s free h = h
arrive-IsCounted (admitted pid uid) s free (sum, most) =
    let room = free refl in (omega arith, omega arith)

depart-IsCounted :
    (closes was_admitted : Bool) (active lost : ℕ) (before after : List Bool)
    → IsCounted record { active = active; handlers = before ++ was_admitted ∷ after; lost = lost }
    → IsCounted record {
      active = leave was_admitted closes active;
      handlers = before ++ after;
      lost = lost + lost_by was_admitted closes;
    }
unfolding count_admitted leave
depart-IsCounted closes was_admitted active lost before after (sum, most) =
    let whole = count_admitted-append before (was_admitted ∷ after) in
    let left = count_admitted-append before after in go closes was_admitted whole sum left
  where
    go :
        (closes was_admitted : Bool)
        → count_admitted (before ++ was_admitted ∷ after)
          ≡ count_admitted before + count_admitted (was_admitted ∷ after)
        → active ≡ count_admitted (before ++ was_admitted ∷ after) + lost
        → count_admitted (before ++ after) ≡ count_admitted before + count_admitted after
        → IsCounted record {
          active = leave was_admitted closes active;
          handlers = before ++ after;
          lost = lost + lost_by was_admitted closes;
        }
    go true true w s l = (omega arith, omega arith)
    go true false w s l = (omega arith, omega arith)
    go false true w s l = (omega arith, omega arith)
    go false false w s l = (omega arith, omega arith)

admitted-free :
    (h : Host) (c : Client) (active : ℕ)
    → is_admitted (enter h c active) ≡ true
    → active < max_active_requests
admitted-free h c active = go (enter h c active) refl
  where
    go :
        (entry : Entry)
        → enter h c active ≡ entry
        → is_admitted entry ≡ true
        → active < max_active_requests
    go (admitted pid uid) e k = (enter-admitted h c active pid uid e).2
    go (unknown x) e k = cc
    go stranger e k = cc
    go busy e k = cc

-- However the connections interleave, `_active_requests` is the number of admitted connections that
-- are being handled and of slots whose close was cancelled, and never exceeds the limit.
pub reached-IsCounted : (h : Host) (s : Server) → Reaches h s → IsCounted s
unfolding count_admitted
reached-IsCounted h s start = (omega arith, omega arith)
reached-IsCounted h s (step r (arrive c t)) =
    arrive-IsCounted (enter h c t.active) t (admitted-free h c t.active) (reached-IsCounted h t r)
reached-IsCounted h s (step r (depart c active lost before after b)) =
    depart-IsCounted c.closes b active lost before after (
      reached-IsCounted h record { active = active; handlers = before ++ b ∷ after; lost = lost } r)

-- A connection that is handled alone gives its slot back exactly when it was not admitted or its
-- close is not cancelled; a cancelled close keeps the slot for good.
pub handle_client-active :
    (h : Host) (c : Client) (active : ℕ)
    → (handle_client h c active).active ≡ active + lost_by (is_admitted (enter h c active)) c.closes
unfolding handle_client leave
handle_client-active h c active = go (enter h c active) c.closes
  where
    go :
        (entry : Entry) (closes : Bool)
        → leave (is_admitted entry) closes (after_entry entry active)
          ≡ active + lost_by (is_admitted entry) closes
    go (admitted pid uid) true = omega arith
    go (admitted pid uid) false = omega arith
    go (unknown x) true = omega arith
    go (unknown x) false = omega arith
    go stranger true = omega arith
    go stranger false = omega arith
    go busy true = omega arith
    go busy false = omega arith
