-- ===== src/Helpers.antt =====
-- src/helpers.c: numbers to and from byte buffers, and the UTF-8 test. A `char` is signed on the
-- platforms that the client is built for, which matters in `utf8_check` alone: the other functions
-- mask or cast what they read. The certificate and host checks are calls of OpenSSL and getaddrinfo.
pub mod Length
pub mod Ints
pub mod Utf8
use iotbroker_cloud_c_client.Base.{
  ℕ, zero, suc, ◌+◌, ◌*◌, ◌/◌, ◌%◌, ◌≤◌, ◌<◌, ◌≡◌, refl, arith, List, [], ◌∷◌, ◌++◌, if◌then◌else◌,
  ltb, leb, Outcome, ok, fault, ◌>>=◌, Bytes, byte_at, byte_at-eq, drop-next, Cursor, write, drop,
  length,
}

-- `(s >> 8) & 0xff` and `s & 0xff`
abbrev pub short_bytes : ℕ → Bytes
short_bytes s = (s / 256 % 256) ∷ (s % 256) ∷ []

-- The index moves by the 2 that the code returns.
unfoldable pub add_short : ℕ → Cursor → Outcome Cursor
add_short s = write (short_bytes s)

-- The 16 bits of the result, which the callers see as an `unsigned short` by helpers.h.
unfoldable pub get_short : Bytes → ℕ → Outcome ℕ
get_short array offset = do
  high ← byte_at array offset
  low ← byte_at array (offset + 1)
  ok (high * 256 + low)

pub get_short-eq :
    (buf : Bytes) (i : ℕ) {hi lo : ℕ} {rest : Bytes}
    → drop i buf ≡ hi ∷ lo ∷ rest
    → get_short buf i ≡ ok (hi * 256 + lo)
unfolding get_short
get_short-eq buf i e = rw (byte_at-eq buf i e, byte_at-eq buf (i + 1) (drop-next buf i e))

pub short_value : (s : ℕ) → s < 65536 → s / 256 % 256 * 256 + s % 256 ≡ s
short_value s h = omega arith

-- A short read back where `add_short` stored it.
pub get_short-short_bytes :
    (buf : Bytes) (i s : ℕ) {rest : Bytes}
    → s < 65536
    → drop i buf ≡ short_bytes s ++ rest
    → get_short buf i ≡ ok s
get_short-short_bytes buf i s h e = rw (get_short-eq buf i e, short_value s h)
