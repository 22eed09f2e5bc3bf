-- ===== src/Helpers/Length.antt =====
-- src/helpers.c, `remaining_length` and `add_packet_length`: the length field of an MQTT packet,
-- seven bits a byte, lowest first.
use iotbroker_cloud_c_client.Base.{
  ℕ, zero, suc, ◌+◌, ◌/◌, ◌%◌, ◌^◌, ◌≤◌, ◌<◌, ◌≡◌, arith, [], ◌∷◌, if◌then◌else◌, ltb, leb, Outcome,
  Bytes, IsByte, All, Cursor, write, length,
}

-- The number of bytes of the length field; 0 with a message where the length is refused.
pub remaining_length : ℕ → ℕ
remaining_length l =
    if leb l 127
    then 1
    else if leb l 16383
    then 2
    else if leb l 2097151
    then 3
    else if leb l 26843545
    then 4
    else 0

-- The bytes that the loop of `add_packet_length` stores. `enc_byte | 128` is a sum, as
-- `enc_byte` is below 128.
unfoldable pub length_bytes : ℕ → ℕ → Bytes
length_bytes zero l = []
length_bytes (suc fuel) l =
    let rest = length_bytes fuel (l / 128) in
    if ltb 0 (l / 128) then (l % 128 + 128) ∷ rest else (l % 128) ∷ []

-- An `int` has at most five groups of seven bits. The code stores from index 1 on, where the index
-- of its callers stands, and returns the index behind the last byte.
unfoldable pub add_packet_length : ℕ → Cursor → Outcome Cursor
add_packet_length l = write (length_bytes 5 l)

-- More fuel changes nothing once there is one for each group.
pub length_bytes-fuel :
    (f g l : ℕ) → l < 128 ^ suc f → f ≤ g → length_bytes (suc g) l ≡ length_bytes (suc f) l
unfolding length_bytes
length_bytes-fuel zero g l h le = ground arith
length_bytes-fuel (suc f) zero l h le = absurd (omega arith)
length_bytes-fuel (suc f) (suc g) l h le =
    ground (arith, length_bytes-fuel f g (l / 128) (omega arith))

-- Below 2 ^ 28 the field has one to four bytes.
pub length-length_bytes :
    (l : ℕ) → l < 2 ^ 28 → (1 ≤ length (length_bytes 5 l)) × (length (length_bytes 5 l) ≤ 4)
unfolding length_bytes
length-length_bytes l h = ground arith

length_bytes-IsByte : (fuel l : ℕ) → All IsByte (length_bytes fuel l)
unfolding length_bytes
length_bytes-IsByte zero l = tt
length_bytes-IsByte (suc fuel) l = ground (arith, length_bytes-IsByte fuel (l / 128))

-- `remaining_length` is the number of bytes that `add_packet_length` stores exactly up to
-- 26843545, a tenth of MQTT's limit of 268435455: above that it returns 0.
pub remaining_length_bytes :
    (l : ℕ)
    → l < 2 ^ 28
    → ((l ≤ 26843545 → remaining_length l ≡ length (length_bytes 5 l))
        × (26843545 < l → remaining_length l ≡ 0))
unfolding length_bytes remaining_length
remaining_length_bytes l h = ground arith

pub length_bytes_last : (f v : ℕ) → v < 128 → length_bytes (suc f) v ≡ v ∷ []
unfolding length_bytes
length_bytes_last f v h = ground arith

pub length_bytes_more :
    (f v : ℕ) → 128 ≤ v → length_bytes (suc f) v ≡ (v % 128 + 128) ∷ length_bytes f (v / 128)
unfolding length_bytes
length_bytes_more f v h = ground arith
