-- ===== src/Assoc.antt =====
-- JavaScript's `Map` and plain objects with string keys, as their entries in order of insertion.
-- `set` on a key that is there keeps its place, as `Map.prototype.set` does.
pub mod Laws
pub mod Middle
use open_workflow_studio.Prelude.{
  ◌≡◌, Bool, true, false, Option, none, some, List, [], ◌∷◌, map, if◌then◌else◌, is_some,
}
use open_workflow_studio.Text.{Text, ◌==◌}

abbrev pub Assoc {ℓ} : Type ℓ → Type ℓ
Assoc V = List (Text × V)

module _ {ℓ} {V : Type ℓ} where
  unfoldable pub get : Text → Assoc V → Option V
  get k [] = none
  get k ((j, v) ∷ m) = if k == j then some v else get k m

  abbrev pub has : Text → Assoc V → Bool
  has k m = is_some (get k m)

  unfoldable pub set : Text → V → Assoc V → Assoc V
  set k v [] = (k, v) ∷ []
  set k v ((j, w) ∷ m) = if k == j then (j, v) ∷ m else (j, w) ∷ set k v m

  unfoldable pub delete : Text → Assoc V → Assoc V
  delete k [] = []
  delete k ((j, w) ∷ m) = let rest = delete k m in if k == j then rest else (j, w) ∷ rest

  abbrev pub keys : Assoc V → List Text
  keys [] = []
  keys ((k, _) ∷ m) = k ∷ keys m

  abbrev pub values : Assoc V → List V
  values [] = []
  values ((_, v) ∷ m) = v ∷ values m

  -- No key stands twice.
  abbrev pub IsUnique : Assoc V → Type 0
  IsUnique [] = Unit
  IsUnique ((k, _) ∷ m) = (has k m ≡ false) × IsUnique m
