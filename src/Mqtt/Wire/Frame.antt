-- ===== src/Mqtt/Wire/Frame.antt =====
-- The length field of a frame is read back by `decode_remaining_length`.
use iotbroker_cloud_c_client.Base.{
  ℕ, zero, suc, ◌+◌, ◌*◌, ◌/◌, ◌%◌, ◌^◌, ◌≤◌, ◌<◌, ◌⊎◌, inl, inr, ◌≡◌, refl, ap, ◌∙◌, arith, ◌∷◌,
  ◌++◌, ok, Bytes, byte_at-eq, drop, drop-next, length,
}
use native.Mathlib.Nat.{pow-suc, div-add-mod}
use iotbroker_cloud_c_client.Helpers.Length.{length_bytes, length_bytes_last, length_bytes_more}
use iotbroker_cloud_c_client.Mqtt.Remaining.{details, remaining_loop, decode_remaining_length}

-- A round on a byte with more to follow, and on the last byte.
module _ (fuel : ℕ) (buf : Bytes) (i l m used g : ℕ) (rest : Bytes) where
  more_round :
      g < 128
      → m ≤ 2097152
      → drop i buf ≡ (g + 128) ∷ rest
      → remaining_loop (suc fuel) buf i l m used
        ≡ remaining_loop fuel buf (i + 1) (l + g * m) (m * 128) (used + 1)
  unfolding remaining_loop
  more_round hg hm e = ground (arith, byte_at-eq buf i {b = g + 128} {rest = rest} e)

  last_round :
      g < 128
      → m ≤ 2097152
      → drop i buf ≡ g ∷ rest
      → remaining_loop (suc fuel) buf i l m used
        ≡ ok (details (used + 1) (l + g * m + 1 + (used + 1)))
  unfolding remaining_loop
  last_round hg hm e = ground (arith, byte_at-eq buf i {b = g} {rest = rest} e)

same_details : {a b c d : ℕ} → a ≡ b → c ≡ d → details a c ≡ details b d
same_details p q = cc

-- A last group under 128, or a group and more above it.
small_or_large : (v : ℕ) → (v < 128) ⊎ (128 ≤ v)
small_or_large v = grind arith

scale_pow : (m k : ℕ) → m * 128 ^ suc k ≡ m * 128 * 128 ^ k
scale_pow m k = rw pow-suc (omega arith)

le_scaled : (m k : ℕ) → m ≤ m * 128 ^ k
le_scaled m zero = omega arith
le_scaled m (suc k) = omega (arith, scale_pow m k, le_scaled (m * 128) k)

split_group : (v m : ℕ) → v * m ≡ v % 128 * m + v / 128 * (m * 128)
split_group v m = omega (arith, ap (λ (t : ℕ). t * m) (div-add-mod v 128))

-- The length `v` that is still to be read counts `m`-fold.
module _ (buf : Bytes) (rest : Bytes) where
  last_group :
      (f g i l m used v : ℕ)
      → v < 128
      → m ≤ 2097152
      → drop i buf ≡ length_bytes (suc f) v ++ rest
      → let n = length (length_bytes (suc f) v) in
        remaining_loop (suc g) buf i l m used ≡ ok (details (used + n) (l + v * m + 1 + (used + n)))
  last_group f g i l m used v hv hm e =
      rw (length_bytes_last f v hv)
        (last_round g buf i l m used v rest hv hm (rw (length_bytes_last f v hv) at e))

  loop-length_bytes :
      (k f g i l m used v : ℕ)
      → v < 128 ^ suc k
      → k ≤ f
      → k ≤ g
      → m * 128 ^ k ≤ 2097152
      → drop i buf ≡ length_bytes (suc f) v ++ rest
      → let n = length (length_bytes (suc f) v) in
        remaining_loop (suc g) buf i l m used ≡ ok (details (used + n) (l + v * m + 1 + (used + n)))
  loop-length_bytes zero f g i l m used v hv hf hg hm e =
      last_group f g i l m used v (omega arith) (omega arith) e
  loop-length_bytes (suc k) zero g i l m used v hv hf hg hm e = absurd (omega arith)
  loop-length_bytes (suc k) (suc f) zero i l m used v hv hf hg hm e = absurd (omega arith)
  loop-length_bytes (suc k) (suc f) (suc g) i l m used v hv hf hg hm e = elim (small_or_large v) [
    | inl small ↦
        last_group (suc f) (suc g) i l m used v small (omega (arith, le_scaled m (suc k))) e
    | inr large ↦
        let e' = rw (length_bytes_more (suc f) v large) at e in
        let step =
          more_round (suc g) buf i l m used (v % 128) _ (omega arith)
            (omega (arith, le_scaled m (suc k))) e' in
        let more =
          loop-length_bytes k f g (i + 1) (l + v % 128 * m) (m * 128) (used + 1) (v / 128)
            (omega arith) (omega arith) (omega arith) (omega (arith, scale_pow m k))
            (drop-next buf i e') in
        rw (length_bytes_more (suc f) v large)
          (step ∙ more ∙ ap ok (same_details (omega arith) (omega (arith, split_group v m))))
  ]

-- The fields of the length details of a frame: the bytes of the length field, and all its bytes.
pub decode_remaining_length-length_bytes :
    (first l : ℕ) (rest : Bytes)
    → l < 2 ^ 28
    → let n = length (length_bytes 5 l) in
      decode_remaining_length (first ∷ length_bytes 5 l ++ rest) ≡ ok (details n (1 + n + l))
unfolding decode_remaining_length
decode_remaining_length-length_bytes first l rest h =
    loop-length_bytes (first ∷ length_bytes 5 l ++ rest) rest 3 4 4 1 0 1 0 l (omega arith)
      (omega arith) (omega arith) (omega arith) refl
    ∙ ap ok (same_details (omega arith) (omega arith))
