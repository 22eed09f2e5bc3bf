-- ===== src/Base/HashTable.antt =====
-- GLib's GHashTable, which the clients keep their unanswered messages and their topics in: what its
-- documentation says of the calls that the clients make, with integer keys and with texts.
use Prim.Native.Nat.{ℕ}
use mathlib.Core.Path.{◌≡◌}
use mathlib.Core.Option.{Option, none, some}
use mathlib.Core.List.{List}
use native.Mathlib.Omega.{arith}
use iotbroker_cloud_c_client.Base.Tests.{◌==◌, if◌then◌else◌, same_text}
use iotbroker_cloud_c_client.Base.Partial.{Outcome, ok, fault}

pub record HashTable (V : Type 0) : Type 1 where
  pub Table : Type 0
  pub new : Table
  pub insert : ℕ → V → Table → Table
  pub lookup : ℕ → Table → Option V
  pub remove : ℕ → Table → Table
  pub entries : Table → List (ℕ × V)  -- in the order of GHashTableIter
  pub lookup-new : (k : ℕ) → lookup k new ≡ none
  pub lookup-insert :
      (k j : ℕ) (v : V) (t : Table)
      → lookup j (insert k v t) ≡ (if k == j then some v else lookup j t)
  pub lookup-remove :
      (k j : ℕ) (t : Table) → lookup j (remove k t) ≡ (if k == j then none else lookup j t)

pub record TextTable (V : Type 0) : Type 1 where
  pub Table : Type 0
  pub new : Table
  pub insert : List ℕ → V → Table → Table
  pub lookup : List ℕ → Table → Option V
  pub lookup-new : (k : List ℕ) → lookup k new ≡ none
  pub lookup-insert :
      (k j : List ℕ) (v : V) (t : Table)
      → lookup j (insert k v t) ≡ (if same_text k j then some v else lookup j t)

module _ {V : Type 0} (h : HashTable V) where
  open h use {Table, lookup, insert, remove, lookup-insert, lookup-remove}

  pub lookup-insert_same : (k : ℕ) (v : V) (t : Table) → lookup k (insert k v t) ≡ some v
  lookup-insert_same k v t = rw lookup-insert (ground arith)

  pub lookup-remove_same : (k : ℕ) (t : Table) → lookup k (remove k t) ≡ none
  lookup-remove_same k t = rw lookup-remove (ground arith)

-- A pointer to a table: NULL, a table, or a table that has been destroyed.
pub data MapPointer (Table : Type 0) : Type 0 where
  null : MapPointer Table
  live : Table → MapPointer Table
  destroyed : MapPointer Table

-- A call of the table through a pointer that holds none is undefined.
abbrev pub the_table : {Table : Type 0} → MapPointer Table → Outcome Table
the_table null = fault
the_table (live t) = ok t
the_table destroyed = fault

-- `if (map != NULL) g_hash_table_destroy(map);` The pointer to the destroyed table stays.
abbrev pub destroy : {Table : Type 0} → MapPointer Table → Outcome (MapPointer Table)
destroy null = ok null
destroy (live t) = ok destroyed
destroy destroyed = fault
