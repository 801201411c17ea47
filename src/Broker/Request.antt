-- ===== src/Broker/Request.antt =====
-- `_read_bounded_request`, `_decode_request` and `_unique_object` of sandbox_broker.py.
use yantra_os.Prelude.{
  ℕ, ◌+◌, ◌*◌, suc, Bool, false, ◌||◌, not, Option, none, some, List, [], ◌∷◌, ltb, ◌==◌,
  if◌then◌else◌,
}
use yantra_os.Prelude.Lists.{length, take, codes}
use yantra_os.Prelude.Result.{Result, ok, err}
use yantra_os.Json.{Json, str, obj, get, keys_are, unique}
use yantra_os.Sandbox.Script.{Value, text, other, Text, validate_script, max_script_bytes}

abbrev pub max_request_bytes : ℕ
max_request_bytes = max_script_bytes * 6 + 64

-- What the handling of a request may raise.
pub data Raised : Type 0 where
  request_error timed_out cancelled fault : Raised

-- What the decoding calls: `bytes.decode("utf-8")` with `json.loads`, none where either raises, and
-- the methods of `str`.
pub record Reader : Type 0 where
  pub loads : List ℕ → Option Json
  pub chars : Text

-- `readexactly(MAX_REQUEST_BYTES + 1)` of what the peer sends, then the size check
unfoldable pub read_bounded_request : Result Raised (List ℕ) → Result Raised (List ℕ)
unfolding take
read_bounded_request (err e) = err e
read_bounded_request (ok sent) =
    let bytes = take (suc max_request_bytes) sent in
    if ltb max_request_bytes (length bytes) then err request_error else ok bytes

-- `data.count(b"\n")`
unfoldable pub count_newlines : List ℕ → ℕ
count_newlines [] = 0
count_newlines (b ∷ bs) = let n = count_newlines bs in if b == 10 then suc n else n

-- `data.endswith(b"\n")`
unfoldable pub ends_line : List ℕ → Bool
ends_line [] = false
ends_line (b ∷ []) = b == 10
ends_line (b ∷ c ∷ r) = ends_line (c ∷ r)

-- data[:-1]
unfoldable pub drop_last : List ℕ → List ℕ
drop_last [] = []
drop_last (b ∷ []) = []
drop_last (b ∷ c ∷ r) = b ∷ drop_last (c ∷ r)

-- the value of the script field, for `validate_script`
unfoldable pub script_value : Option Json → Value
script_value (some (str s)) = text (codes s)
script_value _ = other

-- The checks of a payload: an object of one field, which is a script.
unfoldable pub decode_payload : Reader → Json → Result Raised (List ℕ)
unfolding keys_are get script_value validate_script
decode_payload r (obj fs) =
    if not (keys_are ("script" ∷ []) fs)
    then err request_error
    else elim (validate_script r.chars (script_value (get "script" fs))) [
      | ok script ↦ ok script
      | err e ↦ err request_error
    ]
decode_payload r _ = err request_error

-- the parsed text, its duplicate keys refused by the hook
unfoldable pub decode_loaded : Reader → Option Json → Result Raised (List ℕ)
unfolding decode_payload unique
decode_loaded r none = err request_error
decode_loaded r (some v) = if unique v then decode_payload r v else err request_error

unfoldable pub decode_request : Reader → List ℕ → Result Raised (List ℕ)
unfolding decode_loaded count_newlines ends_line drop_last
decode_request r bytes =
    if not (ends_line bytes) || not (count_newlines bytes == 1)
    then err request_error
    else decode_loaded r (r.loads (drop_last bytes))
