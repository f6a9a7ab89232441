-- ===== src/Engine/HashMap.antt =====
-- What the engine relies on of the hash map type that it takes from a library: a finite map from
-- byte strings to slot indices, with the documented behaviour of `get`, `insert` and `remove`.
use hybird_kv.Prelude.{ℕ, ◌≡◌, Option, none, some, Bytes, bytes_eq, if◌then◌else◌}

pub record HashMap (Map : Type 0) : Type 0 where
  pub empty : Map
  pub get : Map → Bytes → Option ℕ
  pub insert : Map → Bytes → ℕ → Map
  pub remove : Map → Bytes → Map
  pub get-empty : (k : Bytes) → get empty k ≡ none
  pub get-insert :
      (m : Map) (k : Bytes) (i : ℕ) (j : Bytes)
      → get (insert m k i) j ≡ (if bytes_eq k j then some i else get m j)
  pub get-remove :
      (m : Map) (k j : Bytes) → get (remove m k) j ≡ (if bytes_eq k j then none else get m j)
