-- ===== src/Tests/Ws.antt =====
-- Base64 at five octets.
use iotbroker_cloud_c_client.Base.{◌≡◌, ◌∷◌, [], arith, ok, All, IsByte}
use iotbroker_cloud_c_client.Ws.Base64.{base64_encode, base64_decode}
use iotbroker_cloud_c_client.Ws.RoundTrip.{
  base64_text, base64_encode-base64_text, base64_decode-base64_encode,
}

five_bytes : All IsByte (104 ∷ 255 ∷ 0 ∷ 108 ∷ 111 ∷ [])
five_bytes = (omega arith, (omega arith, (omega arith, (omega arith, (omega arith, tt)))))

base64_encode-base64_text_example :
    base64_encode (104 ∷ 255 ∷ 0 ∷ 108 ∷ 111 ∷ []) ≡ base64_text (104 ∷ 255 ∷ 0 ∷ 108 ∷ 111 ∷ [])
base64_encode-base64_text_example =
    base64_encode-base64_text (104 ∷ 255 ∷ 0 ∷ 108 ∷ 111 ∷ []) five_bytes

base64_decode-base64_encode_example :
    base64_decode (base64_encode (104 ∷ 255 ∷ 0 ∷ 108 ∷ 111 ∷ []))
    ≡ ok (104 ∷ 255 ∷ 0 ∷ 108 ∷ 111 ∷ [])
base64_decode-base64_encode_example =
    base64_decode-base64_encode 104 (255 ∷ 0 ∷ 108 ∷ 111 ∷ []) five_bytes
