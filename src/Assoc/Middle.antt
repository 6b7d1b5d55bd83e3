-- ===== src/Assoc/Middle.antt =====
-- Writing into a map at a place in its middle, which the loops that rebuild a map do.
use open_workflow_studio.Prelude.{◌≡◌, refl, true, false, some, [], ◌∷◌, ◌++◌, arith, append_assoc}
use open_workflow_studio.Text.{Text, ==_iff, ==_refl}
use open_workflow_studio.Assoc.{Assoc, get, has, set, IsUnique}

module _ {ℓ} {V : Type ℓ} where
  has-middle : (k : Text) (v : V) (p m : Assoc V) → has k (p ++ (k, v) ∷ m) ≡ true
  unfolding get
  has-middle k v [] m = rw (==_refl k) refl
  has-middle k v ((j, w) ∷ p) m = ground (arith, has-middle k v p m)

  -- A key that stands behind the first part is not in it.
  pub fresh-middle :
      (k : Text) (v : V) (p m : Assoc V) → IsUnique (p ++ (k, v) ∷ m) → has k p ≡ false
  unfolding get
  fresh-middle k v [] m u = refl
  fresh-middle k v ((j, w) ∷ p) m (fresh, u) =
      ground (arith, fresh-middle k v p m u, ==_iff k j, has-middle k v p m)

  pub set-middle :
      (k : Text) (v w : V) (p m : Assoc V)
      → has k p ≡ false
      → set k v (p ++ (k, w) ∷ m) ≡ p ++ (k, v) ∷ m
  unfolding get set
  set-middle k v w [] m h = rw (==_refl k) refl
  set-middle k v w ((j, x) ∷ p) m h = ground (arith, set-middle k v w p m)

  pub get-middle :
      (k : Text) (v : V) (p m : Assoc V) → has k p ≡ false → get k (p ++ (k, v) ∷ m) ≡ some v
  unfolding get
  get-middle k v [] m h = rw (==_refl k) refl
  get-middle k v ((j, x) ∷ p) m h = ground (arith, get-middle k v p m)

  pub regroup : (p m : Assoc V) (e : Text × V) → (p ++ e ∷ []) ++ m ≡ p ++ e ∷ m
  regroup p m e = append_assoc p (e ∷ []) m
