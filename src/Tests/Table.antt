-- ===== src/Tests/Table.antt =====
-- A block that malloc may return, and the two kinds of table as association lists, newest entry first.
use iotbroker_cloud_c_client.Base.{
  ℕ, zero, suc, ◌≡◌, refl, arith, Option, none, some, List, [], ◌∷◌, if◌then◌else◌, ◌==◌, same_text,
  Bytes, length,
}
use iotbroker_cloud_c_client.Base.HashTable.{HashTable, TextTable}

-- Every byte of the block is 170.
abbrev pub block : ℕ → Bytes
block zero = []
block (suc n) = 170 ∷ block n

pub length-block : (n : ℕ) → length (block n) ≡ n
length-block zero = refl
length-block (suc n) = omega (arith, length-block n)

module _ {V : Type 0} where
  abbrev pub find : ℕ → List (ℕ × V) → Option V
  find k [] = none
  find k ((j, v) ∷ t) = if j == k then some v else find k t

  abbrev pub delete : ℕ → List (ℕ × V) → List (ℕ × V)
  delete k [] = []
  delete k ((j, v) ∷ t) = let rest = delete k t in if j == k then rest else (j, v) ∷ rest

  pub find-insert :
      (k j : ℕ) (v : V) (t : List (ℕ × V))
      → find j ((k, v) ∷ delete k t) ≡ (if k == j then some v else find j t)
  find-insert k j v [] = refl
  find-insert k j v ((i, w) ∷ t) = ground (arith, find-insert k j v t)

  pub find-delete :
      (k j : ℕ) (t : List (ℕ × V)) → find j (delete k t) ≡ (if k == j then none else find j t)
  find-delete k j [] = ground arith
  find-delete k j ((i, w) ∷ t) = ground (arith, find-delete k j t)

abbrev pub association_list : (V : Type 0) → HashTable V
association_list V = record {
  Table = List (ℕ × V);
  new = [];
  insert = λ k v t. (k, v) ∷ delete k t;
  lookup = find;
  remove = delete;
  entries = λ t. t;
  lookup-new = λ k. refl;
  lookup-insert = find-insert;
  lookup-remove = find-delete;
}

module _ {V : Type 0} where
  abbrev pub find_text : List ℕ → List (List ℕ × V) → Option V
  find_text k [] = none
  find_text k ((j, v) ∷ t) = if same_text j k then some v else find_text k t

-- The newest entry of a text hides the older ones.
abbrev pub text_list : (V : Type 0) → TextTable V
text_list V = record {
  Table = List (List ℕ × V);
  new = [];
  insert = λ k v t. (k, v) ∷ t;
  lookup = find_text;
  lookup-new = λ k. refl;
  lookup-insert = λ k j v t. refl;
}
