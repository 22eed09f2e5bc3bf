-- ===== src/Tests/Helpers.antt =====
-- src/helpers.c on concrete inputs.
use iotbroker_cloud_c_client.Base.{
  ◌≤◌, ◌<◌, ◌≡◌, none, [], ◌∷◌, arith, length, ok, ◌>>=◌, start, contents,
}
use iotbroker_cloud_c_client.Helpers.Ints.{add_int, get_int_advanced, get_int_advanced-add_int}
use iotbroker_cloud_c_client.Helpers.Length.{remaining_length, length_bytes, remaining_length_bytes}
use iotbroker_cloud_c_client.Helpers.Utf8.{utf8_check, utf8_check-none}

remaining_length_bytes_example :
    (321 ≤ 26843545 → remaining_length 321 ≡ length (length_bytes 5 321))
    × (26843545 < 321 → remaining_length 321 ≡ 0)
remaining_length_bytes_example = remaining_length_bytes 321 (omega arith)

-- An overlong form, which UTF-8 forbids.
utf8_check-none_example : utf8_check (0xc0 ∷ 0x80 ∷ 65 ∷ []) ≡ none
utf8_check-none_example = utf8_check-none (0xc0 ∷ 0x80 ∷ 65 ∷ [])

get_int_advanced-add_int_example :
    (add_int 3735928559 (start (1 ∷ 2 ∷ 3 ∷ 4 ∷ 5 ∷ [])) >>= λ k. get_int_advanced (contents k) 0)
    ≡ ok 3735928559
get_int_advanced-add_int_example =
    get_int_advanced-add_int 3735928559 (start (1 ∷ 2 ∷ 3 ∷ 4 ∷ 5 ∷ [])) (omega arith) (omega arith)
