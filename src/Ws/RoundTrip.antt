-- ===== src/Ws/RoundTrip.antt =====
-- Base64 as RFC 4648 lays it down, and that what is encoded is decoded.
use iotbroker_cloud_c_client.Base.{
  ℕ, zero, suc, ◌+◌, ◌-◌, ◌*◌, ◌/◌, ◌%◌, ◌<◌, ◌≡◌, refl, ap, sym, ◌∙◌, arith, Bool, true, false,
  not, ◌&&◌, [], ◌∷◌, ◌++◌, if◌then◌else◌, ltb, ◌==◌, all_below, all_below-lt, ==_iff, Outcome, ok,
  refused, fault, Bytes, All, IsByte, byte_at, length, take-append,
}
use iotbroker_cloud_c_client.Ws.Base64.{
  encoded_char, encoded_triple, encode_loop, pad_count, base64_encode, table_index, decoded_char,
  decode_loop, output_length, base64_decode,
}

-- The alphabet of RFC 4648: `A` to `Z`, `a` to `z`, `0` to `9`, `+` and `/`.
abbrev pub base64_char : ℕ → ℕ
base64_char n =
    if ltb n 26
    then n + b'A'
    else if ltb n 52
    then n - 26 + b'a'
    else if ltb n 62
    then n - 52 + b'0'
    else if n == 62
    then b'+'
    else b'/'

-- The text of some octets: every three octets four characters of six bits each; of one octet that is left,
-- two characters and two signs `=`, of two, three and one.
abbrev pub base64_text : Bytes → Bytes
base64_text [] = []
base64_text (a ∷ []) = base64_char (a / 4) ∷ base64_char (a % 4 * 16) ∷ b'=' ∷ b'=' ∷ []
base64_text (a ∷ b ∷ []) =
    base64_char (a / 4) ∷ base64_char (a % 4 * 16 + b / 16) ∷ base64_char (b % 16 * 4) ∷ b'=' ∷ []
base64_text (a ∷ b ∷ c ∷ rest) =
    base64_char (a / 4)
    ∷ base64_char (a % 4 * 16 + b / 16)
    ∷ base64_char (b % 16 * 4 + c / 64)
    ∷ base64_char (c % 64)
    ∷ base64_text rest

-- The same text with the characters that the code looks up. Every three octets four characters of
-- six bits each; of one octet that is left, two characters and two signs `=`, of two, three and one.
abbrev code_text : Bytes → Bytes
code_text [] = []
code_text (a ∷ []) = encoded_char (a / 4) ∷ encoded_char (a % 4 * 16) ∷ 61 ∷ 61 ∷ []
code_text (a ∷ b ∷ []) =
    encoded_char (a / 4) ∷ encoded_char (a % 4 * 16 + b / 16) ∷ encoded_char (b % 16 * 4) ∷ 61 ∷ []
code_text (a ∷ b ∷ c ∷ rest) =
    encoded_char (a / 4)
    ∷ encoded_char (a % 4 * 16 + b / 16)
    ∷ encoded_char (b % 16 * 4 + c / 64)
    ∷ encoded_char (c % 64)
    ∷ code_text rest

-- Every six bits have a character, which is read back, and is not the sign `=`.
abbrev is_read_back : ℕ → Bool
is_read_back n = elim (decoded_char (encoded_char n)) [
  | ok m ↦ m == n && not (encoded_char n == 61)
  | _ ↦ false
]

table_of_chars : all_below is_read_back 64 ≡ true
unfolding decoded_char encoded_char table_index
table_of_chars = refl

read_back :
    (n : ℕ) (o : Outcome ℕ) (e : Bool)
    → (elim o [ ok m ↦ m == n && not e | _ ↦ false ]) ≡ true
    → (o ≡ ok n) × (e ≡ false)
read_back n (ok m) e h = ground arith
read_back n refused e h = cc
read_back n fault e h = cc

decoded-encoded_char :
    (n : ℕ) → n < 64 → (decoded_char (encoded_char n) ≡ ok n) × ((encoded_char n == 61) ≡ false)
decoded-encoded_char n h =
    read_back n (decoded_char (encoded_char n)) (encoded_char n == 61)
      (all_below-lt is_read_back 64 n table_of_chars h)

decoded_equal_sign : decoded_char 61 ≡ ok 0
unfolding decoded_char
decoded_equal_sign = refl

encoded_char-eq : (m n : ℕ) → m % 64 ≡ n % 64 → encoded_char m ≡ encoded_char n
unfolding encoded_char
encoded_char-eq m n e = rw e

encoded_triple-eq :
    (a b c : ℕ)
    → a < 256
    → b < 256
    → c < 256
    → encoded_triple a b c
      ≡ encoded_char (a / 4)
        ∷ encoded_char (a % 4 * 16 + b / 16)
        ∷ encoded_char (b % 16 * 4 + c / 64)
        ∷ encoded_char (c % 64)
        ∷ []
unfolding encoded_triple
encoded_triple-eq a b c ha hb hc =
    let triple = a * 65536 + b * 256 + c in
    let e₁ = encoded_char-eq (triple / 262144) (a / 4) (omega arith) in
    let e₂ = encoded_char-eq (triple / 4096) (a % 4 * 16 + b / 16) (omega arith) in
    let e₃ = encoded_char-eq (triple / 64) (b % 16 * 4 + c / 64) (omega arith) in
    let e₄ = encoded_char-eq triple (c % 64) (omega arith) in rw (e₁, e₂, e₃, e₄) refl

pad_count-next : (m : ℕ) → pad_count (suc (suc (suc m))) ≡ pad_count m
unfolding pad_count
pad_count-next m = let same : suc (suc (suc m)) % 3 ≡ m % 3 = omega arith in rw same refl

text_size :
    (m : ℕ)
    → 4 * ((suc (suc (suc m)) + 2) / 3) - pad_count m
      ≡ suc (suc (suc (suc (4 * ((m + 2) / 3) - pad_count m))))
unfolding pad_count
text_size m = ground arith

base64_encode-code_text :
    (data_bytes : Bytes) → All IsByte data_bytes → base64_encode data_bytes ≡ code_text data_bytes
unfolding base64_encode encode_loop pad_count
base64_encode-code_text [] h = refl
base64_encode-code_text (a ∷ []) h =
    let none_left : encoded_char (a % 4 * 16 + 0 / 16) ≡ encoded_char (a % 4 * 16) =
      encoded_char-eq _ _ (omega arith) in
    rw (encoded_triple-eq a 0 0 h.0 (omega arith) (omega arith), none_left) refl
base64_encode-code_text (a ∷ b ∷ []) h =
    let none_left : encoded_char (b % 16 * 4 + 0 / 64) ≡ encoded_char (b % 16 * 4) =
      encoded_char-eq _ _ (omega arith) in
    rw (encoded_triple-eq a b 0 h.0 h.1.0 (omega arith), none_left) refl
base64_encode-code_text (a ∷ b ∷ c ∷ rest) h =
    rw
      (
        encoded_triple-eq a b c h.0 h.1.0 h.1.1.0,
        pad_count-next (length rest),
        text_size (length rest),
      )
      (ap
        (λ s.
          encoded_char (a / 4)
          ∷ encoded_char (a % 4 * 16 + b / 16)
          ∷ encoded_char (b % 16 * 4 + c / 64)
          ∷ encoded_char (c % 64)
          ∷ s)
        (base64_encode-code_text rest h.1.1.1))

zeros : ℕ → Bytes
zeros zero = []
zeros (suc n) = 0 ∷ zeros n

-- Four characters that stand for six bits each.
decode_loop-four :
    (p q r s : ℕ) (rest decoded : Bytes)
    → p < 64
    → q < 64
    → r < 64
    → s < 64
    → decode_loop rest ≡ ok decoded
    → decode_loop (encoded_char p ∷ encoded_char q ∷ encoded_char r ∷ encoded_char s ∷ rest)
      ≡ ok (
          ((p * 262144 + q * 4096 + r * 64 + s) / 65536 % 256)
          ∷ ((p * 262144 + q * 4096 + r * 64 + s) / 256 % 256)
          ∷ ((p * 262144 + q * 4096 + r * 64 + s) % 256)
          ∷ decoded)
unfolding decode_loop
decode_loop-four p q r s rest decoded hp hq hr hs e =
    rw
      (
        (decoded-encoded_char p hp).0,
        (decoded-encoded_char q hq).0,
        (decoded-encoded_char r hr).0,
        (decoded-encoded_char s hs).0,
        e,
      )
      refl

decode_loop-code_text :
    (data_bytes : Bytes)
    → All IsByte data_bytes
    → decode_loop (code_text data_bytes) ≡ ok (data_bytes ++ zeros (pad_count (length data_bytes)))
unfolding decode_loop pad_count zeros
decode_loop-code_text [] h = refl
decode_loop-code_text (a ∷ []) h =
    let p = a / 4 in
    let q = a % 4 * 16 in
    let first : (p * 262144 + q * 4096 + 0 * 64 + 0) / 65536 % 256 ≡ a = omega (arith, h.0) in
    let second : (p * 262144 + q * 4096 + 0 * 64 + 0) / 256 % 256 ≡ 0 = omega (arith, h.0) in
    let third : (p * 262144 + q * 4096 + 0 * 64 + 0) % 256 ≡ 0 = omega (arith, h.0) in
    rw
      (
        (decoded-encoded_char p (omega (arith, h.0))).0,
        (decoded-encoded_char q (omega arith)).0,
        decoded_equal_sign,
        first,
        second,
        third,
      )
      refl
decode_loop-code_text (a ∷ b ∷ []) h =
    let p = a / 4 in
    let q = a % 4 * 16 + b / 16 in
    let r = b % 16 * 4 in
    let first : (p * 262144 + q * 4096 + r * 64 + 0) / 65536 % 256 ≡ a =
      omega (arith, h.0, h.1.0) in
    let second : (p * 262144 + q * 4096 + r * 64 + 0) / 256 % 256 ≡ b = omega (arith, h.0, h.1.0) in
    let third : (p * 262144 + q * 4096 + r * 64 + 0) % 256 ≡ 0 = omega (arith, h.0, h.1.0) in
    rw
      (
        (decoded-encoded_char p (omega (arith, h.0))).0,
        (decoded-encoded_char q (omega (arith, h.1.0))).0,
        (decoded-encoded_char r (omega arith)).0,
        decoded_equal_sign,
        first,
        second,
        third,
      )
      refl
decode_loop-code_text (a ∷ b ∷ c ∷ rest) h =
    let p = a / 4 in
    let q = a % 4 * 16 + b / 16 in
    let r = b % 16 * 4 + c / 64 in
    let s = c % 64 in
    let first : (p * 262144 + q * 4096 + r * 64 + s) / 65536 % 256 ≡ a =
      omega (arith, h.0, h.1.0, h.1.1.0) in
    let second : (p * 262144 + q * 4096 + r * 64 + s) / 256 % 256 ≡ b =
      omega (arith, h.0, h.1.0, h.1.1.0) in
    let third : (p * 262144 + q * 4096 + r * 64 + s) % 256 ≡ c =
      omega (arith, h.0, h.1.0, h.1.1.0) in
    let e =
      decode_loop-four p q r s (code_text rest) _ (omega (arith, h.0)) (omega (arith, h.1.0))
        (omega (arith, h.1.1.0)) (omega arith) (decode_loop-code_text rest h.1.1.1) in
    rw (first, second, third) at e ∙ unfold pad_count in rw (pad_count-next (length rest)) refl

table_of_alphabet : all_below (λ n. encoded_char n == base64_char n) 64 ≡ true
unfolding encoded_char
table_of_alphabet = refl

encoded_char-base64_char : (n : ℕ) → n < 64 → encoded_char n ≡ base64_char n
encoded_char-base64_char n h =
    (==_iff _ _).0 (all_below-lt (λ n. encoded_char n == base64_char n) 64 n table_of_alphabet h)

code_text-base64_text :
    (data_bytes : Bytes) → All IsByte data_bytes → code_text data_bytes ≡ base64_text data_bytes
code_text-base64_text [] h = refl
code_text-base64_text (a ∷ []) h =
    let e₁ = encoded_char-base64_char (a / 4) (omega (arith, h.0)) in
    let e₂ = encoded_char-base64_char (a % 4 * 16) (omega arith) in rw (e₁, e₂) refl
code_text-base64_text (a ∷ b ∷ []) h =
    let e₁ = encoded_char-base64_char (a / 4) (omega (arith, h.0)) in
    let e₂ = encoded_char-base64_char (a % 4 * 16 + b / 16) (omega (arith, h.1.0)) in
    let e₃ = encoded_char-base64_char (b % 16 * 4) (omega arith) in rw (e₁, e₂, e₃) refl
code_text-base64_text (a ∷ b ∷ c ∷ rest) h =
    let e₁ = encoded_char-base64_char (a / 4) (omega (arith, h.0)) in
    let e₂ = encoded_char-base64_char (a % 4 * 16 + b / 16) (omega (arith, h.1.0)) in
    let e₃ = encoded_char-base64_char (b % 16 * 4 + c / 64) (omega (arith, h.1.1.0)) in
    let e₄ = encoded_char-base64_char (c % 64) (omega arith) in
    rw (e₁, e₂, e₃, e₄, code_text-base64_text rest h.1.1.1) refl

-- `base64_encode` writes the text of RFC 4648, in its alphabet.
pub base64_encode-base64_text :
    (data_bytes : Bytes) → All IsByte data_bytes → base64_encode data_bytes ≡ base64_text data_bytes
base64_encode-base64_text data_bytes h =
    base64_encode-code_text data_bytes h ∙ code_text-base64_text data_bytes h

length-code_text :
    (data_bytes : Bytes) → length (code_text data_bytes) ≡ 4 * ((length data_bytes + 2) / 3)
length-code_text [] = refl
length-code_text (a ∷ []) = refl
length-code_text (a ∷ b ∷ []) = refl
length-code_text (a ∷ b ∷ c ∷ rest) = omega (arith, length-code_text rest)

byte_at-behind_four :
    (p q r s : ℕ) (text : Bytes) (l l' v : ℕ)
    → l ≡ suc (suc (suc (suc l')))
    → byte_at text l' ≡ ok v
    → byte_at (p ∷ q ∷ r ∷ s ∷ text) l ≡ ok v
unfolding byte_at
byte_at-behind_four p q r s text l l' v same e = rw same e

-- What the last two characters of a text tell.
last_two :
    (data_bytes : Bytes) (l : ℕ)
    → All IsByte data_bytes
    → length (code_text data_bytes) ≡ suc (suc l)
    → (last : ℕ) × (before : ℕ) × (byte_at (code_text data_bytes) (suc l) ≡ ok last)
      × (byte_at (code_text data_bytes) l ≡ ok before)
      × ((last == 61) ≡ ltb 0 (pad_count (length data_bytes)))
      × ((before == 61) ≡ ltb 1 (pad_count (length data_bytes)))
unfolding byte_at pad_count
last_two [] l h e = absurd (omega arith)
last_two (a ∷ []) l h e =
    let two : l ≡ 2 = omega arith in (61, 61, rw two refl, rw two refl, refl, refl)
last_two (a ∷ b ∷ []) l h e =
    let two : l ≡ 2 = omega arith in
    let text = (decoded-encoded_char (b % 16 * 4) (omega arith)).1 in
    (61, encoded_char (b % 16 * 4), rw two refl, rw two refl, refl, text)
last_two (a ∷ b ∷ c ∷ []) l h e =
    let two : l ≡ 2 = omega arith in
    let text₃ = (decoded-encoded_char (b % 16 * 4 + c / 64) (omega (arith, h.1.1.0))).1 in
    let text₄ = (decoded-encoded_char (c % 64) (omega arith)).1 in
    (
      encoded_char (c % 64),
      encoded_char (b % 16 * 4 + c / 64),
      rw two refl,
      rw two refl,
      text₄,
      text₃,
    )
last_two (a ∷ b ∷ c ∷ d ∷ rest) l h e =
    let size = length-code_text (d ∷ rest) in
    let l' = 4 * ((length (d ∷ rest) + 2) / 3) - 2 in
    let same : l ≡ suc (suc (suc (suc l'))) = omega arith in
    let (last, before, e₁, e₂, t₁, t₂) = last_two (d ∷ rest) l' h.1.1.1 (omega arith) in
    (
      last,
      before,
      byte_at-behind_four (encoded_char (a / 4)) (encoded_char (a % 4 * 16 + b / 16))
          (encoded_char (b % 16 * 4 + c / 64)) (encoded_char (c % 64)) (code_text (d ∷ rest))
          (suc l) (suc l') last (ap suc same) e₁,
      byte_at-behind_four (encoded_char (a / 4)) (encoded_char (a % 4 * 16 + b / 16))
          (encoded_char (b % 16 * 4 + c / 64)) (encoded_char (c % 64)) (code_text (d ∷ rest)) l l'
          before same e₂,
      t₁ ∙ ap (ltb 0) (sym (pad_count-next (length (d ∷ rest)))),
      t₂ ∙ ap (ltb 1) (sym (pad_count-next (length (d ∷ rest)))),
    )

output_length-last_two :
    (text : Bytes) (l last before : ℕ)
    → length text ≡ suc (suc l)
    → byte_at text (suc l) ≡ ok last
    → byte_at text l ≡ ok before
    → output_length text
      ≡ ok (suc (suc l) / 4 * 3 - (if last == 61 then 1 else 0) - (if before == 61 then 1 else 0))
unfolding output_length
output_length-last_two text l last before size e₁ e₂ =
    let one_less : suc (suc l) - 1 ≡ suc l = omega arith in
    let two_less : suc (suc l) - 2 ≡ l = omega arith in
    let more : ltb 1 (suc (suc l)) ≡ true = ground arith in
    rw (size, more, one_less, two_less, e₁, e₂) refl

decoded_size :
    (n l : ℕ)
    → suc (suc l) ≡ 4 * ((suc n + 2) / 3)
    → suc (suc l) / 4 * 3
        - (if ltb 0 (pad_count (suc n)) then 1 else 0)
        - (if ltb 1 (pad_count (suc n)) then 1 else 0)
      ≡ suc n
unfolding pad_count
decoded_size n l e = ground arith

output_length-code_text :
    (b : ℕ) (rest : Bytes)
    → All IsByte (b ∷ rest)
    → output_length (code_text (b ∷ rest)) ≡ ok (suc (length rest))
output_length-code_text b rest h =
    let size = length-code_text (b ∷ rest) in
    let l = 4 * ((length (b ∷ rest) + 2) / 3) - 2 in
    let two : length (code_text (b ∷ rest)) ≡ suc (suc l) = omega arith in
    let (last, before, e₁, e₂, t₁, t₂) = last_two (b ∷ rest) l h two in
    output_length-last_two (code_text (b ∷ rest)) l last before two e₁ e₂
    ∙ rw (t₁, t₂) (ap ok (decoded_size (length rest) l (omega arith)))

-- What is encoded is decoded to the same octets. The condition is that there is one octet at least.
pub base64_decode-base64_encode :
    (b : ℕ) (rest : Bytes)
    → All IsByte (b ∷ rest)
    → base64_decode (base64_encode (b ∷ rest)) ≡ ok (b ∷ rest)
unfolding base64_decode
base64_decode-base64_encode b rest h =
    let size = length-code_text (b ∷ rest) in
    let whole : length (code_text (b ∷ rest)) % 4 ≡ 0 = omega arith in
    rw
      (
        base64_encode-code_text (b ∷ rest) h,
        whole,
        output_length-code_text b rest h,
        decode_loop-code_text (b ∷ rest) h,
      )
      (ap ok (take-append (b ∷ rest) (zeros (pad_count (length (b ∷ rest))))))
