-- ===== src/Mqtt/Decode/Text.antt =====
-- Strings as `decode` copies them out of the buffer.
use iotbroker_cloud_c_client.Base.{
  ℕ, ◌+◌, ◌<◌, ◌≡◌, refl, arith, [], ◌∷◌, ◌++◌, if◌then◌else◌, ◌==◌, Outcome, ok, ◌>>=◌, Bytes, All,
  slice, slice-eq, length, drop, drop-past, drop-next₂,
}
use iotbroker_cloud_c_client.Helpers.{get_short, get_short-short_bytes, short_bytes}

-- The text up to the first zero.
unfoldable pub c_string : Bytes → Bytes
c_string [] = []
c_string (b ∷ bs) = if b == 0 then [] else b ∷ c_string bs

-- A length of 16 bits and that many bytes; the index behind them.
unfoldable pub string_at : Bytes → ℕ → Outcome (Bytes × ℕ)
string_at buf i = do
  l ← get_short buf i
  bytes ← slice buf (i + 2) l
  ok (c_string bytes, i + 2 + l)

-- The texts that a C string can be, with a length of 16 bits.
abbrev pub IsText : Bytes → Type 0
IsText s = All (λ b. 0 < b) s × (length s < 65536)

pub c_string-text : (s : Bytes) → All (λ b. 0 < b) s → c_string s ≡ s
unfolding c_string
c_string-text [] h = refl
c_string-text (b ∷ bs) h = ground (arith, c_string-text bs h.1)

-- A text behind its length, with whatever follows.
module _ (buf : Bytes) (i : ℕ) (s rest : Bytes) where
  pub drop-string :
      drop i buf ≡ short_bytes (length s) ++ (s ++ rest) → drop (i + 2 + length s) buf ≡ rest
  drop-string e = drop-past buf (i + 2) s rest (length s) refl (drop-next₂ buf i e)

  pub string_at-eq :
      IsText s
      → drop i buf ≡ short_bytes (length s) ++ (s ++ rest)
      → string_at buf i ≡ ok (s, i + 2 + length s)
  unfolding string_at
  string_at-eq h e = rw (
    get_short-short_bytes buf i (length s) {rest = s ++ rest} h.1 e,
    slice-eq buf (i + 2) s rest (length s) refl (drop-next₂ buf i e),
    c_string-text s h.0,
  )
