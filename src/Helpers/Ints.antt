-- ===== src/Helpers/Ints.antt =====
-- src/helpers.c, `add_int` and `get_int_advanced`: an `int` of four bytes, highest first. A number here
-- is the 32 bits of an `int`.
use iotbroker_cloud_c_client.Base.{
  ℕ, ◌+◌, ◌*◌, ◌/◌, ◌%◌, ◌≤◌, ◌<◌, ◌≡◌, refl, ap, ◌∙◌, arith, [], ◌∷◌, ◌++◌, Outcome, ok, ◌>>=◌,
  Bytes, byte_at, byte_at-eq, drop-next, drop-next₂, drop-past, Cursor, contents, write, write-fits,
  drop, drop-append, append_assoc, length,
}

-- `(i >> 24) & 0xff`, `(i >> 16) & 0xff`, `(i >> 8) & 0xff` and `i & 0xff`
abbrev pub int_bytes : ℕ → Bytes
int_bytes i = (i / 16777216 % 256) ∷ (i / 65536 % 256) ∷ (i / 256 % 256) ∷ (i % 256) ∷ []

-- The index moves by the 4 that the code returns.
unfoldable pub add_int : ℕ → Cursor → Outcome Cursor
add_int i = write (int_bytes i)

-- The four bytes in reverse order, read as an `int` of a little-endian machine.
unfoldable pub get_int_advanced : Bytes → ℕ → Outcome ℕ
get_int_advanced array offset = do
  b₀ ← byte_at array (offset + 3)
  b₁ ← byte_at array (offset + 2)
  b₂ ← byte_at array (offset + 1)
  b₃ ← byte_at array offset
  ok (b₀ + b₁ * 256 + b₂ * 65536 + b₃ * 16777216)

get_int_advanced-eq :
    (buf : Bytes) (i : ℕ) {a b c d : ℕ} {rest : Bytes}
    → drop i buf ≡ a ∷ b ∷ c ∷ d ∷ rest
    → get_int_advanced buf i ≡ ok (d + c * 256 + b * 65536 + a * 16777216)
unfolding get_int_advanced
get_int_advanced-eq buf i e =
    let e₁ = drop-next buf i e in
    let e₂ : drop (i + 2) buf ≡ _ = drop-next₂ buf i e in
    let e₃ = drop-past buf i (_ ∷ _ ∷ _ ∷ []) _ 3 refl e in
    rw
      (
        byte_at-eq buf (i + 3) e₃,
        byte_at-eq buf (i + 2) e₂,
        byte_at-eq buf (i + 1) e₁,
        byte_at-eq buf i e,
      )
      refl

int_value :
    (i : ℕ)
    → i < 4294967296
    → i % 256 + i / 256 % 256 * 256 + i / 65536 % 256 * 65536 + i / 16777216 % 256 * 16777216 ≡ i
int_value i h = omega arith

-- An int that `add_int` stores where four bytes are left is read back from the same index.
pub get_int_advanced-add_int :
    (i : ℕ) (c : Cursor)
    → i < 4294967296
    → 4 ≤ length c.left
    → (add_int i c >>= λ k. get_int_advanced (contents k) (length c.done)) ≡ ok i
unfolding add_int
get_int_advanced-add_int i c h room =
    let stands : drop (length c.done) ((c.done ++ int_bytes i) ++ drop 4 c.left)
        ≡ int_bytes i ++ drop 4 c.left =
      rw (append_assoc c.done (int_bytes i) (drop 4 c.left))
        (drop-append c.done (int_bytes i ++ drop 4 c.left)) in
    rw (write-fits (int_bytes i) c room) (
      get_int_advanced-eq ((c.done ++ int_bytes i) ++ drop 4 c.left) (length c.done) stands
      ∙ ap ok (int_value i h))
