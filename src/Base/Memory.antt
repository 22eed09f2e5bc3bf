-- ===== src/Base/Memory.antt =====
-- Blocks of memory as lists of bytes. An access outside its block is undefined behaviour.
use Prim.Native.Nat.{ℕ, ◌+◌, ◌≤◌, ◌<◌}
use mathlib.Core.Path.{◌≡◌, refl, ap, ◌∙◌}
use mathlib.Core.List.{List, [], ◌∷◌, ◌++◌, append_assoc, append-nil}
use mathlib.Core.Bool.{Bool, true, false}
use native.Mathlib.Omega.{arith}
use iotbroker_cloud_c_client.Base.Tests.{leb, ltb, if◌then◌else◌, le→leb}
use iotbroker_cloud_c_client.Base.Lists.{
  length, take, drop, length-append, length-drop, drop-drop, drop-append, take-append,
}
use iotbroker_cloud_c_client.Base.Partial.{Outcome, ok, refused, fault, ◌>>=◌}

abbrev pub Bytes : Type 0
Bytes = List ℕ

abbrev pub IsByte : ℕ → Type 0
IsByte b = b < 256

first_of_block : Bytes → Outcome ℕ
first_of_block [] = fault
first_of_block (b ∷ bs) = ok b

-- `buf[i]`
unfoldable pub byte_at : Bytes → ℕ → Outcome ℕ
unfolding first_of_block
byte_at buf i = first_of_block (drop i buf)

-- `memcpy(dst, &buf[i], n)` into a block of its own
unfoldable pub slice : Bytes → ℕ → ℕ → Outcome Bytes
slice buf i n = if leb n (length (drop i buf)) then ok (take n (drop i buf)) else fault

-- A block that is written from the front: `done` are the bytes below the index that the code
-- keeps, `left` the rest of the block.
pub record Cursor : Type 0 where
  pub done : Bytes
  pub left : Bytes

abbrev pub contents : Cursor → Bytes
contents c = c.done ++ c.left

abbrev pub start : Bytes → Cursor
start block = record { done = []; left = block }

-- Stores `bs` at the index, and moves the index behind them.
unfoldable pub write : Bytes → Cursor → Outcome Cursor
write bs c =
    if leb (length bs) (length c.left)
    then ok (record { done = c.done ++ bs; left = drop (length bs) c.left })
    else fault

-- `buf[i] = b`, with the index left where it is
unfoldable pub poke : ℕ → Cursor → Outcome Cursor
poke b c = if ltb 0 (length c.left) then ok (record c { left = b ∷ drop 1 c.left }) else fault

pub write-fits :
    (bs : Bytes) (c : Cursor)
    → length bs ≤ length c.left
    → write bs c ≡ ok (record { done = c.done ++ bs; left = drop (length bs) c.left })
unfolding write
write-fits bs c h = rw (le→leb _ _ h)

pub poke-fits :
    (b : ℕ) (c : Cursor) → 0 < length c.left → poke b c ≡ ok (record c { left = b ∷ drop 1 c.left })
unfolding poke
poke-fits b c h = ground arith

-- What stands at index `i` of a block.
module _ (buf : Bytes) (i : ℕ) where
  pub byte_at-eq : {b : ℕ} {rest : Bytes} → drop i buf ≡ b ∷ rest → byte_at buf i ≡ ok b
  unfolding byte_at
  byte_at-eq e = rw e

  pub slice-eq :
      (xs rest : Bytes) (n : ℕ) → length xs ≡ n → drop i buf ≡ xs ++ rest → slice buf i n ≡ ok xs
  unfolding slice
  slice-eq xs rest n l e = rw (
    e,
    ← l,
    length-append xs rest,
    le→leb (length xs) (length xs + length rest) (omega arith),
    take-append xs rest,
  )

  pub drop-next : {b : ℕ} {rest : Bytes} → drop i buf ≡ b ∷ rest → drop (i + 1) buf ≡ rest
  drop-next e = rw (← drop-drop i 1 buf, e)

  pub drop-next₂ : {a b : ℕ} {rest : Bytes} → drop i buf ≡ a ∷ b ∷ rest → drop (i + 2) buf ≡ rest
  drop-next₂ e = rw (← drop-drop i 2 buf, e)

  pub drop-past :
      (xs rest : Bytes) (n : ℕ) → length xs ≡ n → drop i buf ≡ xs ++ rest → drop (i + n) buf ≡ rest
  drop-past xs rest n l e = rw (← drop-drop i n buf, e, ← l) (drop-append xs rest)

-- Two stores in a row are one store of both texts, whether there is room for them or not.
pub write-write_lem : (xs ys : Bytes) (c : Cursor) → (write xs c >>= write ys) ≡ write (xs ++ ys) c
unfolding write
write-write_lem xs ys c = ground (
  arith,
  append_assoc c.done xs ys,
  length-append xs ys,
  length-drop (length xs) c.left,
  drop-drop (length xs) (length ys) c.left,
)

>>=-assoc {ℓ κ ν} :
    {A : Type ℓ} {B : Type κ} {C : Type ν} (m : Outcome A) (f : A → Outcome B) (g : B → Outcome C)
    → (m >>= λ a. f a >>= g) ≡ ((m >>= f) >>= g)
>>=-assoc (ok a) f g = refl
>>=-assoc refused f g = refl
>>=-assoc fault f g = refl

pub write-write {ℓ} :
    {A : Type ℓ} (xs ys : Bytes) (c : Cursor) (f : Cursor → Outcome A)
    → (write xs c >>= λ k. write ys k >>= f) ≡ (write (xs ++ ys) c >>= f)
write-write xs ys c f =
    >>=-assoc (write xs c) (write ys) f ∙ ap (λ m. m >>= f) (write-write_lem xs ys c)

-- The last two stores of a row.
pub write-write_last :
    (xs ys : Bytes) {zs : Bytes} (c : Cursor)
    → xs ++ ys ≡ zs
    → (write xs c >>= write ys) ≡ write zs c
write-write_last xs ys c e = write-write_lem xs ys c ∙ ap (λ t. write t c) e

pub write-nil : (c : Cursor) → write [] c ≡ ok c
unfolding write
write-nil c = ground (arith, append-nil c.done)

-- A store under a test.
pub write_unless :
    (b : Bool) (xs : Bytes) (c : Cursor)
    → (if b then ok c else write xs c) ≡ write (if b then [] else xs) c
write_unless true xs c = rw write-nil
write_unless false xs c = refl

pub write_if :
    (b : Bool) (xs : Bytes) (c : Cursor)
    → (if b then write xs c else ok c) ≡ write (if b then xs else []) c
write_if true xs c = refl
write_if false xs c = rw write-nil

-- A block that is written from its start, with room for the text.
pub write-start :
    (xs block : Bytes)
    → length xs ≤ length block
    → (write xs (start block) >>= λ k. ok (contents k)) ≡ ok (xs ++ drop (length xs) block)
write-start xs block h = rw (write-fits xs (start block) h)

-- The same, and a byte behind the text that the index stays in front of.
pub write-poke :
    (xs : Bytes) (b : ℕ) (block : Bytes)
    → length xs < length block
    → ((write xs (start block) >>= poke b) >>= λ k. ok (contents k))
      ≡ ok (xs ++ b ∷ drop 1 (drop (length xs) block))
write-poke xs b block h =
    let room : length xs ≤ length block = omega arith in
    let more : 0 < length (drop (length xs) block) = omega (arith, length-drop (length xs) block) in
    rw (
      write-fits xs (start block) room,
      poke-fits b (record { done = xs; left = drop (length xs) block }) more,
    )

-- Stores `bs` at the index, and leaves the index where it is.
unfoldable pub store : Bytes → Cursor → Outcome Cursor
store bs c =
    if leb (length bs) (length c.left)
    then ok (record c { left = bs ++ drop (length bs) c.left })
    else fault

-- In the block the two stores leave the same bytes.
pub store-contents :
    (bs : Bytes) (c : Cursor)
    → (store bs c >>= λ k. ok (contents k)) ≡ (write bs c >>= λ k. ok (contents k))
unfolding store write
store-contents bs c = ground (arith, append_assoc c.done bs (drop (length bs) c.left))
