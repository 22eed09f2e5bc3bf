-- ===== src/Coap/Packets.antt =====
-- src/coap/packets: the structs of a CoAP message. An `int` that may be negative is its 32 bits, and
-- an enum is its number.
use iotbroker_cloud_c_client.Base.{ℕ, Option, List, Bytes}

-- `number` is never negative.
pub record CoapOption : Type 0 where
  pub number : ℕ
  pub length : ℕ
  pub value : Option Bytes

-- `options_amount` is the length of the list; `token_length` is set by the decoder and not read.
pub record CoapMessage : Type 0 where
  pub version : ℕ
  pub type : ℕ
  pub code : ℕ
  pub message_id : ℕ
  pub token : Option Bytes
  pub options : List CoapOption
  pub payload : Option Bytes
