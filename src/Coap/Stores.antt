-- ===== src/Coap/Stores.antt =====
-- `coap_encode` as a single store.
use Prim.Native.Nat.{bit_or}
use iotbroker_cloud_c_client.Base.{
  ℕ, suc, ◌+◌, ◌-◌, ◌*◌, ◌/◌, ◌%◌, ◌≤◌, ◌<◌, ◌≡◌, refl, sym, ap, append-nil, arith, inl, inr, true,
  false, ◌&&◌, some, List, [], ◌∷◌, ◌++◌, if◌then◌else◌, ltb, ◌==◌, all_below, all_below-lt, ==_iff,
  ok, Bytes, length, append_assoc, drop, write-fits, take-length, slice-eq, Cursor, start, write,
  write-nil, write-write, write-write_last,
}
use native.Mathlib.Nat.{mod-eq_of_lt}
use iotbroker_cloud_c_client.Helpers.{short_bytes, add_short}
use iotbroker_cloud_c_client.Coap.Packets.{CoapMessage}
use iotbroker_cloud_c_client.Coap.Encode.{
  code_byte, delta_nibble, length_nibble, extension, value_bytes, encode_option, encode_options,
  encode_head, buffer_size, coap_encode, coap_encode_and_fire,
}
use iotbroker_cloud_c_client.Coap.Wire.{
  nibble, extended, option_wire, options_wire, IsDelta, IsOptions, coap_option, coap_options,
  IsCode, coap_wire,
}

first_bits : (t l : ℕ) → t < 4 → l < 9 → bit_or (64 + t * 16) l ≡ 64 + t * 16 + l
first_bits t l ht hl =
    let table =
      all_below-lt (λ t. all_below (λ l. bit_or (64 + t * 16) l == (64 + t * 16 + l)) 9) 4 t refl
        ht in
    (==_iff _ _).0 (all_below-lt (λ l. bit_or (64 + t * 16) l == (64 + t * 16 + l)) 9 l table hl)

extension-delta : (d : ℕ) → IsDelta d → extension d ≡ extended d
extension-delta d (inl h) = ground arith
extension-delta d (inr h) = ground arith

extension-length : (l : ℕ) → l < 141 → extension l ≡ extended l
extension-length l h = ground arith

delta_nibble-eq :
    (previous number : ℕ)
    → previous ≤ number
    → IsDelta (number - previous)
    → delta_nibble previous number ≡ nibble (number - previous) * 16
delta_nibble-eq previous number le (inl h) = ground arith
delta_nibble-eq previous number le (inr h) = ground arith

length_nibble-eq : (l : ℕ) → l < 141 → length_nibble l ≡ nibble l
length_nibble-eq l h = ground arith

value_bytes-eq :
    (number : ℕ) (v : Bytes) → length v < 141 → value_bytes (coap_option number v) ≡ ok v
value_bytes-eq number [] h = refl
value_bytes-eq number (b ∷ v) h =
    let nonzero : (suc (length v) == 0) ≡ false = ground arith in
    let whole : suc (length v) % 65536 ≡ suc (length v) = omega arith in
    rw (whole, nonzero)
      (slice-eq (b ∷ v) 0 (b ∷ v) [] (length (b ∷ v)) refl (ap (λ t. b ∷ t) (sym (append-nil v))))

encode_option-write :
    (previous number : ℕ) (v : Bytes) (k : Cursor)
    → previous ≤ number
    → IsDelta (number - previous)
    → length v < 141
    → encode_option previous (coap_option number v) k ≡ write (option_wire (number - previous) v) k
unfolding encode_option
encode_option-write previous number v k le hd hl =
    let d = number - previous in
    let l = length v in
    let small : (nibble d * 16 + nibble l) % 256 ≡ nibble d * 16 + nibble l = ground arith in
    rw
      (
        delta_nibble-eq previous number le hd,
        length_nibble-eq l hl,
        small,
        extension-delta d hd,
        extension-length l hl,
        value_bytes-eq number v hl,
      )
      (simp (write-write) (write-write_last _ v k (simp append_assoc)))

encode_options-write :
    (previous : ℕ) (os : List (ℕ × Bytes)) (k : Cursor)
    → IsOptions previous os
    → encode_options previous (coap_options os) k ≡ write (options_wire previous os) k
unfolding encode_options
encode_options-write previous [] k h = rw write-nil
encode_options-write previous ((number, v) ∷ os) k (le, hd, hl, ho) =
    simp
      (
        encode_option-write previous number v k le hd hl,
        λ (j : Cursor). encode_options-write number os j ho,
      )
      (write-write_last (option_wire (number - previous) v) (options_wire number os) k refl)

store_payload :
    (payload : Bytes) (k : Cursor)
    → (if ltb 0 (length payload) then write payload k else ok k) ≡ write payload k
store_payload [] k = sym (write-nil k)
store_payload (b ∷ bs) k = let filled : ltb 0 (suc (length bs)) ≡ true = ground arith in rw filled

-- The message that a user of the encoder builds.
abbrev pub outgoing_coap : ℕ → ℕ → ℕ → Bytes → List (ℕ × Bytes) → Bytes → CoapMessage
outgoing_coap type code message_id token os payload = record {
  version = 1;
  type = type;
  code = code;
  message_id = message_id;
  token = some token;
  options = coap_options os;
  payload = some payload;
}

-- The messages that fit the buffer and have a code, a token and options that can be written.
pub record IsSendable (type code message_id : ℕ) (token : Bytes) (os : List (ℕ × Bytes))
    (payload : Bytes) : Type 0 where
  pub type_valid : type < 4
  pub code_valid : IsCode code
  pub id_short : message_id < 65536
  pub token_short : length token < 9
  pub options_valid : IsOptions 0 os
  pub payload_short : length payload < 65536
  pub fits :
      length (coap_wire type code message_id token os payload)
      ≤ (if code == 3 && ltb 0 message_id then 256 + length payload else 256)

abbrev head_wire : ℕ → ℕ → ℕ → Bytes → List (ℕ × Bytes) → Bytes
head_wire type code message_id token os =
    (64 + type * 16 + length token) ∷ (code / 100 * 32 + code % 100) ∷ short_bytes message_id
    ++ (token ++ (options_wire 0 os ++ 255 ∷ []))

module _ (type code id : ℕ) (token : Bytes) (os : List (ℕ × Bytes)) (payload : Bytes)
    (s : IsSendable type code id token os payload) where
  encode_head-write :
      (k : Cursor)
      → encode_head (outgoing_coap type code id token os payload) k
        ≡ write (head_wire type code id token os) k
  unfolding encode_head add_short
  encode_head-write k =
      let l = length token in
      let short : l % 65536 ≡ l = omega (arith, s.token_short) in
      let short' : l % 256 ≡ l = omega (arith, s.token_short) in
      let low : (64 + type * 16) % 256 ≡ 64 + type * 16 = omega (arith, s.type_valid) in
      let code_small : code_byte code % 256 ≡ code / 100 * 32 + code % 100 =
        ground (arith, s.code_valid.0, s.code_valid.1) in
      rw
        (
          short,
          short',
          low,
          first_bits type l s.type_valid s.token_short,
          code_small,
          take-length token,
        )
        (simp (write-write, λ (j : Cursor). encode_options-write 0 os j s.options_valid)
          (write-write_last _ (255 ∷ []) k (simp append_assoc)))

  buffer_size-eq :
      buffer_size (outgoing_coap type code id token os payload)
      ≡ ok (if code == 3 && ltb 0 id then 256 + length payload else 256)
  buffer_size-eq = ground arith

  -- `coap_encode` writes the packet of RFC 7252 at the front of the buffer and tells its length.
  pub coap_encode-eq :
      (malloc : ℕ → Bytes)
      → ((n : ℕ) → length (malloc n) ≡ n)
      → (rest : Bytes) × (coap_encode malloc (outgoing_coap type code id token os payload)
          ≡ ok (
            coap_wire type code id token os payload ++ rest,
            length (coap_wire type code id token os payload),
          ))
  unfolding coap_encode
  coap_encode-eq malloc fresh =
      let n = if code == 3 && ltb 0 id then 256 + length payload else 256 in
      let short : length payload % 65536 ≡ length payload = mod-eq_of_lt s.payload_short in
      let room : length (coap_wire type code id token os payload) ≤ length (malloc n) =
        rw (fresh n) s.fits in
      (
        drop (length (coap_wire type code id token os payload)) (malloc n),
        rw (buffer_size-eq, short, take-length payload, encode_head-write (start (malloc n)))
            (simp (store_payload, write-write, append_assoc)
              (rw (write-fits (coap_wire type code id token os payload) (start (malloc n)) room)
                (simp append_assoc))),
      )

  pub coap_encode_and_fire-eq :
      (malloc : ℕ → Bytes)
      → ((n : ℕ) → length (malloc n) ≡ n)
      → coap_encode_and_fire malloc (outgoing_coap type code id token os payload)
        ≡ ok (coap_wire type code id token os payload)
  unfolding coap_encode_and_fire
  coap_encode_and_fire-eq malloc fresh =
      let (rest, e) = coap_encode-eq malloc fresh in
      rw e (slice-eq _ 0 (coap_wire type code id token os payload) rest _ refl refl)
