-- ===== src/MqttSn/Flags.antt =====
-- src/mqttsn/sn_parser.c: the flags byte. What `validate_create_flags` prints is left out: it prints
-- and goes on.
use Prim.Native.Nat.{bit_and}
use iotbroker_cloud_c_client.Base.{
  ℕ, zero, suc, ◌+◌, ◌*◌, ◌/◌, ◌%◌, ◌<◌, ◌≡◌, refl, ◌∙◌, arith, Bool, true, false, ◌&&◌, Option,
  none, some, if◌then◌else◌, ◌==◌, all_below, all_below-lt,
}

-- `true` is a field with its value, `false` one with -1.
pub record Flags : Type 0 where
  pub dup : Bool
  pub qos_one : Bool
  pub qos1 : Bool
  pub qos2 : Bool
  pub retain : Bool
  pub will : Bool
  pub clean : Bool
  pub reserved : Bool
  pub short_topic : Bool
  pub id_topic : Bool

pub record ValidFlags : Type 0 where
  pub dup : Bool
  pub qos : ℕ
  pub retain : Bool
  pub will : Bool
  pub clean_session : Bool
  pub topic_type : ℕ

abbrev pub no_flags : Flags
no_flags = record {
  dup = false;
  qos_one = false;
  qos1 = false;
  qos2 = false;
  retain = false;
  will = false;
  clean = false;
  reserved = false;
  short_topic = false;
  id_topic = false;
}

-- `(flagsByte & i) == i`
abbrev pub has_bits : ℕ → ℕ → Bool
has_bits flags_byte i = bit_and flags_byte i == i

-- The body of the loop, a switch over `i`. A field that was set before stays.
abbrev pub flag_step : ℕ → ℕ → Flags → Flags
flag_step flags_byte i f =
    if i == 1
    then (if has_bits flags_byte i then record f { id_topic = true } else f)
    else if i == 2
    then (if has_bits flags_byte i then record f { short_topic = true } else f)
    else if i == 3
    then (if has_bits flags_byte i then record f { reserved = true } else f)
    else if i == 4
    then (if has_bits flags_byte i then record f { clean = true } else f)
    else if i == 8
    then (if has_bits flags_byte i then record f { will = true } else f)
    else if i == 16
    then (if has_bits flags_byte i then record f { retain = true } else f)
    else if i == 32
    then (if has_bits flags_byte i then record f { qos1 = true } else f)
    else if i == 64
    then (if has_bits flags_byte i then record f { qos2 = true } else f)
    else if i == 96
    then (if has_bits flags_byte i then record f { qos_one = true } else f)
    else if i == 128
    then (if has_bits flags_byte i then record f { dup = true } else f)
    else f

-- `i` from 1 on, as many rounds as are left.
abbrev pub flag_loop : ℕ → ℕ → ℕ → Flags → Flags
flag_loop zero flags_byte i f = f
flag_loop (suc rounds) flags_byte i f =
    flag_loop rounds flags_byte (i + 1) (flag_step flags_byte i f)

unfoldable pub validate_create_flags : Flags → ValidFlags
validate_create_flags f = record {
  dup = f.dup;
  qos = if f.qos_one then 3 else if f.qos2 then 2 else if f.qos1 then 1 else 0;
  retain = f.retain;
  will = f.will;
  clean_session = f.clean;
  topic_type = if f.short_topic then 2 else if f.id_topic then 1 else 0;
}

unfoldable pub decode_flag : ℕ → ValidFlags
unfolding validate_create_flags
decode_flag flags_byte = validate_create_flags (flag_loop 128 flags_byte 1 no_flags)

abbrev flag_bit : Bool → ℕ → ℕ
flag_bit b weight = if b then weight else 0

abbrev or_zero : Option ℕ → ℕ
or_zero none = 0
or_zero (some n) = n

-- NULL for `qos` or `topicType` is `none`.
unfoldable pub encode_flags : Bool → Option ℕ → Bool → Bool → Bool → Option ℕ → ℕ
encode_flags dup qos retain will clean_session topic_type =
    (flag_bit dup 128
      + or_zero qos * 32
      + flag_bit retain 16
      + flag_bit will 8
      + flag_bit clean_session 4
      + or_zero topic_type)
    % 256

-- The flags byte as MQTT-SN lays it down: two bits for the QoS and two for the kind of topic.
abbrev pub flag_fields : ℕ → ValidFlags
flag_fields b = record {
  dup = b / 128 % 2 == 1;
  qos = b / 32 % 4;
  retain = b / 16 % 2 == 1;
  will = b / 8 % 2 == 1;
  clean_session = b / 4 % 2 == 1;
  topic_type = if b / 2 % 2 == 1 then 2 else b % 2;
}

abbrev same_bit : Bool → Bool → Bool
same_bit true b = b
same_bit false true = false
same_bit false false = true

abbrev same_flags : ValidFlags → ValidFlags → Bool
same_flags f g =
    same_bit f.dup g.dup
    && f.qos == g.qos
    && same_bit f.retain g.retain
    && same_bit f.will g.will
    && same_bit f.clean_session g.clean_session
    && f.topic_type == g.topic_type

flags_table : all_below (λ b. same_flags (decode_flag b) (flag_fields b)) 256 ≡ true
unfolding decode_flag
flags_table = refl

same_bit-eq : (a b : Bool) → same_bit a b ≡ true → a ≡ b
same_bit-eq true true h = refl
same_bit-eq true false h = cc
same_bit-eq false true h = cc
same_bit-eq false false h = refl

same_flags-eq : (f g : ValidFlags) → same_flags f g ≡ true → f ≡ g
same_flags-eq f g h = ground (
  arith,
  same_bit-eq f.dup g.dup,
  same_bit-eq f.retain g.retain,
  same_bit-eq f.will g.will,
  same_bit-eq f.clean_session g.clean_session,
)

-- The loop over the 128 values of `i` and the switch over them read the flags byte as MQTT-SN lays it
-- down, for every byte; the reserved kind of topic, 3, is read as a short name.
pub decode_flag-flag_fields : (b : ℕ) → b < 256 → decode_flag b ≡ flag_fields b
decode_flag-flag_fields b h =
    same_flags-eq (decode_flag b) (flag_fields b)
      (all_below-lt (λ b. same_flags (decode_flag b) (flag_fields b)) 256 b flags_table h)

-- What `encode_flags` writes, `decode_flag` reads back, where the QoS is 0, 1, 2 or 3 and the kind of
-- topic 0, 1 or 2.
pub decode_flag-encode_flags :
    (dup retain will clean : Bool) (qos topic_type : ℕ)
    → qos < 4
    → topic_type < 3
    → decode_flag (encode_flags dup (some qos) retain will clean (some topic_type)) ≡ record {
      dup = dup;
      qos = qos;
      retain = retain;
      will = will;
      clean_session = clean;
      topic_type = topic_type;
    }
unfolding encode_flags
decode_flag-encode_flags dup retain will clean qos topic_type hq ht =
    decode_flag-flag_fields _ (omega arith) ∙ ground arith
