-- ===== src/Coap/Wire.antt =====
-- The format of CoAP (RFC 7252), written down without the encoder.
use iotbroker_cloud_c_client.Base.{
  ℕ, ◌+◌, ◌-◌, ◌*◌, ◌/◌, ◌%◌, ◌≤◌, ◌<◌, ◌⊎◌, none, some, List, [], ◌∷◌, ◌++◌, if◌then◌else◌, ltb,
  ◌==◌, Bytes, length,
}
use iotbroker_cloud_c_client.Helpers.{short_bytes}
use iotbroker_cloud_c_client.Coap.Packets.{CoapOption}

-- A number that is split over four bits and up to two bytes.
abbrev pub nibble : ℕ → ℕ
nibble n = if ltb n 13 then n else if ltb n 269 then 13 else 14

abbrev pub extended : ℕ → Bytes
extended n = if ltb n 13 then [] else if ltb n 269 then (n - 13) ∷ [] else short_bytes (n - 269)

-- Options as pairs of a number and a value, each numbered from the one before.
abbrev pub option_wire : ℕ → Bytes → Bytes
option_wire delta value =
    (nibble delta * 16 + nibble (length value)) ∷ extended delta
    ++ (extended (length value) ++ value)

abbrev pub options_wire : ℕ → List (ℕ × Bytes) → Bytes
options_wire previous [] = []
options_wire previous ((number, value) ∷ os) =
    option_wire (number - previous) value ++ options_wire number os

-- The numbers that are written and read as RFC 7252 says.
abbrev pub IsDelta : ℕ → Type 0
IsDelta d = (d < 141) ⊎ ((269 ≤ d) × (d < 65805))

abbrev pub IsOptions : ℕ → List (ℕ × Bytes) → Type 0
IsOptions previous [] = Unit
IsOptions previous ((number, value) ∷ os) =
    (previous ≤ number) × IsDelta (number - previous) × (length value < 141) × IsOptions number os

abbrev pub coap_option : ℕ → Bytes → CoapOption
coap_option number value = record {
  number = number;
  length = length value;
  value = if length value == 0 then none else some value;
}

abbrev pub coap_options : List (ℕ × Bytes) → List CoapOption
coap_options [] = []
coap_options ((number, value) ∷ os) = coap_option number value ∷ coap_options os

-- The code is written as its class and its detail.
abbrev pub IsCode : ℕ → Type 0
IsCode code = (code / 100 < 4) × (code % 100 < 32)

abbrev pub coap_wire : ℕ → ℕ → ℕ → Bytes → List (ℕ × Bytes) → Bytes → Bytes
coap_wire type code message_id token os payload =
    (64 + type * 16 + length token) ∷ (code / 100 * 32 + code % 100) ∷ short_bytes message_id
    ++ (token ++ (options_wire 0 os ++ 255 ∷ payload))
