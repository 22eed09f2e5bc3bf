-- ===== src/Mqtt/Sound.antt =====
-- What `decode` accepts, on any buffer.
use iotbroker_cloud_c_client.Base.{
  ℕ, zero, suc, ◌+◌, ◌/◌, ◌%◌, ◌≤◌, ◌<◌, ◌≡◌, refl, subst, arith, List, [], ◌∷◌, Bool, true, false,
  if◌then◌else◌, ◌==◌, Outcome, ok, refused, fault, >>=-eq-ok, byte_at, ◌∙◌, ap, Bytes, All, length,
}
use iotbroker_cloud_c_client.Helpers.{get_short}
use iotbroker_cloud_c_client.Mqtt.Packets.{
  Message, Connack, Publish, Suback, connack, publish, puback, pubrec, pubrel, pubcomp, suback,
  unsuback, pingreq, pingresp, disconnect, received, MessageType, Decoded,
}
use iotbroker_cloud_c_client.Mqtt.Remaining.{next_index, bytes_left, decode_remaining_length}
use iotbroker_cloud_c_client.Mqtt.Decode.{
  decode_codes, decode_suback, decode_connack, decode_payload, decode_publish, decode_type, decode,
  on_heap, on_stack,
}
use iotbroker_cloud_c_client.Mqtt.Broker.{IsCode}

abbrev pub IsValid : Message → Type 0
IsValid (publish p) = (p.topic.qos ≤ 2) × (p.dup ≡ true → 0 < p.topic.qos)
IsValid (connack c) = (c.session_present ≤ 1) × (c.return_code ≤ 5)
IsValid (suback s) = All IsCode s.codes × (0 < length s.codes)
IsValid _ = Unit

decode_connack-valid :
    (buf : Bytes) (c : Connack)
    → decode_connack buf ≡ ok c
    → (c.session_present ≤ 1) × (c.return_code ≤ 5)
unfolding decode_connack
decode_connack-valid buf c e = ground arith

decode_publish-valid :
    (header : ℕ) (buf : Bytes) (p : Publish)
    → decode_publish header buf ≡ ok p
    → (p.topic.qos ≤ 2) × (p.dup ≡ true → 0 < p.topic.qos)
unfolding decode_publish decode_payload
decode_publish-valid header buf p e = ground arith

decode_codes-step :
    (buf : Bytes) (i n c : ℕ) (codes : List ℕ)
    → decode_codes buf i (suc n) ≡ ok (c ∷ codes)
    → IsCode c × (decode_codes buf (i + 1) n ≡ ok codes)
unfolding decode_codes
decode_codes-step buf i n c codes e = ground arith

decode_codes-valid :
    (buf : Bytes) (i n : ℕ) (codes : List ℕ) → decode_codes buf i n ≡ ok codes → All IsCode codes
decode_codes-valid buf i n [] e = tt
decode_codes-valid buf i zero (c ∷ codes) e = unfold decode_codes in cc
decode_codes-valid buf i (suc n) (c ∷ codes) e =
    let (valid, more) = decode_codes-step buf i n c codes e in
    (valid, decode_codes-valid buf (i + 1) n codes more)

decode_suback-inv :
    (buf : Bytes) (s : Suback)
    → decode_suback buf ≡ ok s
    → (i n : ℕ) × (decode_codes buf i n ≡ ok s.codes) × (0 < length s.codes)
unfolding decode_suback
decode_suback-inv buf s e =
    let (d, _, e₁) = >>=-eq-ok (decode_remaining_length buf) _ e in
    let (id, _, e₂) = >>=-eq-ok (get_short buf (next_index d)) _ e₁ in
    let i = next_index d + 2 in
    let (codes, ec, e₃) = >>=-eq-ok (decode_codes buf i (bytes_left d i)) _ e₂ in
    let same : codes ≡ s.codes = ground arith in (i, bytes_left d i, ec ∙ ap ok same, ground arith)

decode_suback-valid :
    (buf : Bytes) (s : Suback)
    → decode_suback buf ≡ ok s
    → All IsCode s.codes × (0 < length s.codes)
decode_suback-valid buf s e =
    let (i, n, ec, pos) = decode_suback-inv buf s e in (decode_codes-valid buf i n s.codes ec, pos)

data AllValid (r : Outcome Decoded) : Type 0 where
  all_valid : ((m : Message) → r ≡ ok (received m) → IsValid m) → AllValid r

AllValid-if :
    (b : Bool) {x y : Outcome Decoded} → AllValid x → AllValid y → AllValid (if b then x else y)
AllValid-if true hx hy = hx
AllValid-if false hx hy = hy

AllValid-on_heap :
    {A : Type 0} (t : MessageType) (f : A → Message) (r : Outcome A)
    → ((a : A) → r ≡ ok a → IsValid (f a))
    → AllValid (on_heap t f r)
AllValid-on_heap t f (ok a) h = all_valid λ m e. subst IsValid (ground arith) (h a refl)
AllValid-on_heap t f refused h = all_valid λ m e. cc
AllValid-on_heap t f fault h = all_valid λ m e. cc

AllValid-on_stack :
    {A : Type 0} (t : MessageType) (f : A → Message) (r : Outcome A) → AllValid (on_stack t f r)
AllValid-on_stack t f (ok a) = all_valid λ m e. cc
AllValid-on_stack t f refused = all_valid λ m e. cc
AllValid-on_stack t f fault = all_valid λ m e. cc

AllValid-received : (n : Message) → IsValid n → AllValid (ok (received n))
AllValid-received n h = all_valid λ m e. subst IsValid (ground arith) h

AllValid-ack :
    (t : MessageType) (f : ℕ → Message) (r : Outcome ℕ)
    → ((n : ℕ) → IsValid (f n))
    → AllValid (on_heap t f r)
AllValid-ack t f r h = AllValid-on_heap t f r (λ n _. h n)

decode_type-AllValid : (type header : ℕ) (buf : Bytes) → AllValid (decode_type type header buf)
unfolding decode_type
decode_type-AllValid type header buf = AllValid-if (type == 1) (AllValid-on_stack _ _ _) (
    AllValid-if (type == 2) (AllValid-on_heap _ _ _ (decode_connack-valid buf)) (
      AllValid-if (type == 3) (AllValid-on_heap _ _ _ (decode_publish-valid header buf)) (
        AllValid-if (type == 4) (AllValid-ack _ puback _ (λ n. tt)) (
          AllValid-if (type == 5) (AllValid-ack _ pubrec _ (λ n. tt)) (
            AllValid-if (type == 6) (AllValid-ack _ pubrel _ (λ n. tt)) (
              AllValid-if (type == 7) (AllValid-ack _ pubcomp _ (λ n. tt)) (
                AllValid-if (type == 8) (AllValid-on_stack _ _ _) (
                  AllValid-if (type == 9) (AllValid-on_heap _ _ _ (decode_suback-valid buf)) (
                    AllValid-if (type == 10) (AllValid-on_stack _ _ _) (
                      AllValid-if (type == 11) (AllValid-ack _ unsuback _ (λ n. tt)) (
                        AllValid-if (type == 12) (AllValid-received pingreq tt) (
                          AllValid-if (type == 13) (AllValid-received pingresp tt) (
                            AllValid-if (type == 14) (AllValid-received disconnect tt)
                              (all_valid λ m e. cc))))))))))))))

AllValid-IsValid :
    {r : Outcome Decoded} → AllValid r → (m : Message) → r ≡ ok (received m) → IsValid m
AllValid-IsValid (all_valid h) = h

-- Whatever buffer `decode` accepts, the message that it hands on with its packet set is valid: a
-- PUBLISH has QoS 0, 1 or 2 and is no second delivery at QoS 0, the flag and the code of a
-- CONNACK are in their ranges, and a SUBACK has one or more codes, each a QoS or the failure.
pub decode-IsValid : (buf : Bytes) (m : Message) → decode buf ≡ ok (received m) → IsValid m
unfolding decode
decode-IsValid buf m e =
    let (b, _, e') = >>=-eq-ok (byte_at buf 0) _ e in
    AllValid-IsValid (decode_type-AllValid (b / 16 % 16) (b % 16) buf) m e'
