-- ===== src/Mqtt/Remaining.antt =====
-- src/mqtt/parser.c, `decode_remaining_length`.
use iotbroker_cloud_c_client.Base.{
  ℕ, zero, suc, ◌+◌, ◌*◌, ◌-◌, ◌%◌, if◌then◌else◌, ltb, leb, Outcome, ok, fault, ◌>>=◌, Bytes,
  byte_at,
}

-- `invalid` has -1 in both fields; `length` counts the whole packet, its first byte included.
pub data LengthDetails : Type 0 where
  invalid : LengthDetails
  details : ℕ → ℕ → LengthDetails

-- `i += length_details.bytes_used`, for the `i` of 1 at which all callers stand
abbrev pub next_index : LengthDetails → ℕ
next_index invalid = 0
next_index (details bytes_used l) = 1 + bytes_used

-- `length_details.length - i` where it is not negative, and 0 where it is
abbrev pub bytes_left : LengthDetails → ℕ → ℕ
bytes_left invalid i = 0
bytes_left (details bytes_used l) i = l - i

-- `multiplier` passes 128 ^ 3 before a fifth round, so a fuel of 5 is never used up.
unfoldable pub remaining_loop : ℕ → Bytes → ℕ → ℕ → ℕ → ℕ → Outcome LengthDetails
remaining_loop zero buf i l multiplier bytes_used = fault
remaining_loop (suc fuel) buf i l multiplier bytes_used =
    let round = do
      enc ← byte_at buf i
      let l' = l + enc % 128 * multiplier
      let more = remaining_loop fuel buf (i + 1) l' (multiplier * 128) (bytes_used + 1)
      if leb 128 enc then more else ok (details (bytes_used + 1) (l' + 1 + (bytes_used + 1)))
    in if ltb (128 * 128 * 128) multiplier then ok invalid else round

unfoldable pub decode_remaining_length : Bytes → Outcome LengthDetails
unfolding remaining_loop
decode_remaining_length buf = remaining_loop 5 buf 1 0 1 0
