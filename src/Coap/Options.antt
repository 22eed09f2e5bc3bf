-- ===== src/Coap/Options.antt =====
-- The options of a CoAP message, as `coap_decode` reads them.
use iotbroker_cloud_c_client.Base.{
  ℕ, zero, suc, ◌+◌, ◌-◌, ◌*◌, ◌/◌, ◌%◌, ◌≤◌, ◌<◌, ◌≡◌, refl, ap, ◌∙◌, arith, inl, inr, none, some,
  List, [], ◌∷◌, ◌++◌, if◌then◌else◌, ◌==◌, ok, Bytes, length, length-append, append_assoc, drop,
  drop-next, drop-past, byte_at, byte_at-eq, slice-eq,
}
use iotbroker_cloud_c_client.Helpers.{get_short-short_bytes}
use iotbroker_cloud_c_client.Coap.Packets.{CoapOption}
use iotbroker_cloud_c_client.Coap.Decode.{
  next_number, option_length, option_value, decode_option, option_loop,
}
use iotbroker_cloud_c_client.Coap.Wire.{
  nibble, extended, options_wire, IsDelta, IsOptions, coap_option, coap_options,
}

next_number-eq :
    (number d : ℕ) (buf : Bytes) (j : ℕ) (rest : Bytes)
    → IsDelta d
    → drop j buf ≡ extended d ++ rest
    → next_number number (nibble d) buf j ≡ ok (number + d, j + length (extended d))
unfolding next_number
next_number-eq number d buf j rest (inl h) e =
    ground (arith, byte_at-eq buf j {b = d - 13} {rest = rest})
next_number-eq number d buf j rest (inr h) e =
    ground (arith, get_short-short_bytes buf j (d - 269) {rest = rest})

option_length-eq :
    (l : ℕ) (buf : Bytes) (j : ℕ) (rest : Bytes)
    → l < 141
    → drop j buf ≡ extended l ++ rest
    → option_length (nibble l) buf j ≡ ok (l, j + length (extended l))
unfolding option_length
option_length-eq l buf j rest h e = ground (arith, byte_at-eq buf j {b = l - 13} {rest = rest})

option_value-eq :
    (v : Bytes) (buf : Bytes) (j : ℕ) (rest : Bytes)
    → length v < 141
    → drop j buf ≡ v ++ rest
    → option_value (length v) buf j ≡ ok (if length v == 0 then none else some v, j + length v)
unfolding option_value
option_value-eq v buf j rest h e = ground (arith, slice-eq buf j v rest (length v) refl e)

decode_option-eq :
    (previous number : ℕ) (v buf : Bytes) (j : ℕ) (rest : Bytes)
    → previous ≤ number
    → IsDelta (number - previous)
    → length v < 141
    → drop j buf ≡ extended (number - previous) ++ (extended (length v) ++ (v ++ rest))
    → decode_option previous (nibble (number - previous) * 16 + nibble (length v)) buf j
      ≡ ok (
        coap_option number v,
        j + length (extended (number - previous)) + length (extended (length v)) + length v,
      )
unfolding decode_option
decode_option-eq previous number v buf j rest le hd hl e =
    let d = number - previous in
    let l = length v in
    let high : (nibble d * 16 + nibble l) / 16 ≡ nibble d = ground arith in
    let low : (nibble d * 16 + nibble l) % 16 ≡ nibble l = ground arith in
    let sum : previous + (number - previous) ≡ number = omega arith in
    let at_length = drop-past buf j (extended d) (extended l ++ (v ++ rest)) _ refl e in
    let at_value =
      drop-past buf (j + length (extended d)) (extended l) (v ++ rest) _ refl at_length in
    rw (
      high,
      low,
      next_number-eq previous d buf j _ hd e,
      option_length-eq l buf (j + length (extended d)) _ hl at_length,
      option_value-eq v buf (j + length (extended d) + length (extended l)) rest hl at_value,
      sum,
    )

option_wire-low : (d : ℕ) (v : Bytes) → nibble d * 16 + nibble (length v) < 255
option_wire-low d v = ground arith

-- One round of the loop.
option_loop-step :
    (fuel : ℕ) (buf : Bytes) (n previous j : ℕ) {b j' i : ℕ} {o : CoapOption} {os : List CoapOption}
    → j < n
    → byte_at buf j ≡ ok b
    → b < 255
    → decode_option previous b buf (j + 1) ≡ ok (o, j')
    → option_loop fuel buf n o.number j' ≡ ok (os, i)
    → option_loop (suc fuel) buf n previous j ≡ ok (o ∷ os, i)
unfolding option_loop
option_loop-step fuel buf n previous j h eb hb eo er = ground (arith, eo, er)

-- The loop reads the options up to their mark, 0xff.
pub option_loop-eq :
    (fuel : ℕ) (buf : Bytes) (n previous j : ℕ) (os : List (ℕ × Bytes)) (rest : Bytes)
    → length os < fuel
    → IsOptions previous os
    → drop j buf ≡ options_wire previous os ++ 255 ∷ rest
    → j + length (options_wire previous os) < n
    → option_loop fuel buf n previous j
      ≡ ok (coap_options os, j + length (options_wire previous os))
option_loop-eq zero buf n previous j os rest hf ho e hn = absurd (omega arith)
option_loop-eq (suc fuel) buf n previous j [] rest hf ho e hn =
    unfold option_loop in ground (arith, byte_at-eq buf j {b = 255} {rest = rest} e)
option_loop-eq (suc fuel) buf n previous j ((number, v) ∷ os) rest hf (le, hd, hl, ho) e hn =
    let d = number - previous in
    let first = nibble d * 16 + nibble (length v) in
    let tail = options_wire number os ++ 255 ∷ rest in
    let ext = extended d in
    let exl = extended (length v) in
    let here : drop j buf ≡ first ∷ (ext ++ (exl ++ (v ++ tail))) = e ∙ simp append_assoc in
    let inner = drop-next buf j here in
    let j' = j + 1 + length ext + length exl + length v in
    let at_length = drop-past buf (j + 1) ext (exl ++ (v ++ tail)) _ refl inner in
    let at_value = drop-past buf (j + 1 + length ext) exl (v ++ tail) _ refl at_length in
    let behind : drop j' buf ≡ tail =
      drop-past buf (j + 1 + length ext + length exl) v tail _ refl at_value in
    let size : length (options_wire previous ((number, v) ∷ os))
        ≡ 1 + length ext + length exl + length v + length (options_wire number os) =
      omega (
        arith,
        length-append {0} (ext ++ (exl ++ v)) (options_wire number os),
        length-append {0} ext (exl ++ v),
        length-append {0} exl v,
      ) in
    let rec = option_loop-eq fuel buf n number j' os rest (omega arith) ho behind (omega arith) in
    option_loop-step fuel buf n previous j (omega arith) (byte_at-eq buf j here)
      (option_wire-low d v) (decode_option-eq previous number v buf (j + 1) tail le hd hl inner)
      (rec ∙ ap (λ i. ok (coap_options os, i)) (omega arith))
