-- ===== src/Helpers/Utf8.antt =====
-- src/helpers.c, `utf8_check`. The bytes of a string stand without their terminator.
use Prim.Native.Nat.{bit_and}
use iotbroker_cloud_c_client.Base.{
  ℕ, zero, suc, ◌≡◌, ◌≤◌, refl, arith, Bool, true, false, not, ◌&&◌, ◌||◌, Option, none, some, [],
  ◌∷◌, if◌then◌else◌, ltb, ◌==◌, Bytes, drop, length,
}

-- `s[k]`, the terminator behind the last byte included
char_at : Bytes → ℕ → ℕ
char_at [] k = 0
char_at (b ∷ bs) zero = b
char_at (b ∷ bs) (suc k) = char_at bs k

-- `(s[k] & mask) == value`: the mask takes the sign extension off.
masked : Bytes → ℕ → ℕ → ℕ → Bool
unfolding char_at
masked s k mask value = bit_and (char_at s k) mask == value

-- A signed char against a constant of 0x80 or more: a byte from 128 on is a negative number.
char_lt : ℕ → ℕ → Bool
char_lt b n = if ltb b 128 then ltb b n else true

char_gt : ℕ → ℕ → Bool
char_gt b n = if ltb b 128 then ltb n b else false

char_eq : ℕ → ℕ → Bool
char_eq b n = if ltb b 128 then b == n else false

bad_two : Bytes → Bool
unfolding masked
bad_two s = not (masked s 1 0xc0 0x80) || masked s 0 0xfe 0xc0

bad_three : Bytes → Bool
unfolding masked char_eq char_at
bad_three s =
    not (masked s 1 0xc0 0x80)
    || not (masked s 2 0xc0 0x80)
    || (char_eq (char_at s 0) 0xe0 && masked s 1 0xe0 0x80)
    || (char_eq (char_at s 0) 0xed && masked s 1 0xe0 0xa0)
    || (char_eq (char_at s 0) 0xef && char_eq (char_at s 1) 0xbf && masked s 2 0xfe 0xbe)

bad_four : Bytes → Bool
unfolding masked char_eq char_gt char_at
bad_four s =
    not (masked s 1 0xc0 0x80)
    || not (masked s 2 0xc0 0x80)
    || not (masked s 3 0xc0 0x80)
    || (char_eq (char_at s 0) 0xf0 && masked s 1 0xf0 0x80)
    || (char_eq (char_at s 0) 0xf4 && char_gt (char_at s 1) 0x8f)
    || char_gt (char_at s 0) 0xf4

-- `some rest` is the pointer to the first bad byte, `none` is NULL. Each round takes a byte, so the
-- fuel of `length s` rounds is never used up before the end.
utf8_loop : ℕ → Bytes → Option Bytes
utf8_loop fuel [] = none
utf8_loop zero (b ∷ bs) = some (b ∷ bs)
utf8_loop (suc fuel) (b ∷ bs) =
    let s = b ∷ bs in
    let one = utf8_loop fuel bs in
    let two = if bad_two s then some s else utf8_loop fuel (drop 1 bs) in
    let three = if bad_three s then some s else utf8_loop fuel (drop 2 bs) in
    let four = if bad_four s then some s else utf8_loop fuel (drop 3 bs) in
    if char_lt b 0x80
    then one
    else if masked s 0 0xe0 0xc0
    then two
    else if masked s 0 0xf0 0xe0
    then three
    else if masked s 0 0xf8 0xf0
    then four
    else some s

unfoldable pub utf8_check : Bytes → Option Bytes
unfolding utf8_loop char_lt masked bad_two bad_three bad_four
utf8_check s = utf8_loop (length s) s

char_lt-true : (b : ℕ) → char_lt b 0x80 ≡ true
unfolding char_lt
char_lt-true b = ground arith

utf8_loop-none : (fuel : ℕ) (s : Bytes) → length s ≤ fuel → utf8_loop fuel s ≡ none
unfolding utf8_loop
utf8_loop-none fuel [] h = refl
utf8_loop-none zero (b ∷ bs) h = absurd (omega arith)
utf8_loop-none (suc fuel) (b ∷ bs) h = rw (char_lt-true b) (utf8_loop-none fuel bs (omega arith))

-- With a signed `char` the test `*s < 0x80` holds of every byte: `utf8_check` accepts every
-- string, well formed or not.
pub utf8_check-none : (s : Bytes) → utf8_check s ≡ none
unfolding utf8_check
utf8_check-none s = utf8_loop-none (length s) s (omega arith)
