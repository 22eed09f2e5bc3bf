-- ===== src/Tests/Coap.antt =====
-- The CoAP encoder and decoder on a concrete input: a PUT with two options.
use iotbroker_cloud_c_client.Base.{ℕ, List, [], ◌∷◌, Bytes}

abbrev token : Bytes
token = 49 ∷ []

abbrev options : List (ℕ × Bytes)
options = (11, 97 ∷ 98 ∷ []) ∷ (2050, 99 ∷ []) ∷ []

abbrev payload : Bytes
payload = 104 ∷ 105 ∷ []
