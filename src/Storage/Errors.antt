-- ===== src/Storage/Errors.antt =====
-- crates/geonosis-storage/src/error.rs, and the steps that the methods of memory.rs share.
use geonosis.Base.{
  Option, none, some, ◌≡◌, refl, arith, String, Map, lookup, insert, remove, contains_key, Eq,
  Result, ok, err, ok_or, if◌then◌else◌, str_append, List, [], ◌∷◌,
}

pub data StorageError : Type 0 where
  not_found : StorageError
  conflict backend invalid : String → StorageError

-- `e.to_string()`
unfoldable pub to_string : StorageError → String
to_string not_found = "not found"
to_string (conflict s) = str_append "conflict: " s
to_string (backend s) = str_append "backend: " s
to_string (invalid s) = str_append "invalid input: " s

-- `Result<(), StorageError>`
abbrev pub Done : Type 0
Done = Result StorageError (Unit {0})

module _ {K V : Type 0} ⦃e : Eq K⦄ where
  -- `get(&k).cloned().ok_or(NotFound)`
  abbrev pub fetch : K → Map K V → Result StorageError V
  fetch k m = ok_or (lookup k m) not_found

  -- `remove(&k).ok_or(NotFound).map(|_| ())`
  abbrev pub discard : K → Map K V → Map K V × Done
  discard k m = if contains_key k m then (remove k m, ok tt) else (m, err not_found)

  -- `if !contains_key(&k) { return Err(NotFound) }; insert(k, v)`
  abbrev pub replace : K → V → Map K V → Map K V × Done
  replace k v m = if contains_key k m then (insert k v m, ok tt) else (m, err not_found)

-- `values()`
abbrev pub values : {K V : Type 0} → Map K V → List V
values [] = []
values ((k, v) ∷ m) = v ∷ values m

-- A fetch read backwards.
pub found : {V : Type 0} (o : Option V) (v : V) → ok_or o not_found ≡ ok v → o ≡ some v
found none v q = cc
found (some w) v q = ground arith

pub missing : {V : Type 0} (o : Option V) → ok_or o not_found ≡ err not_found → o ≡ none
missing none q = refl
missing (some v) q = cc
