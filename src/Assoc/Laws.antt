-- ===== src/Assoc/Laws.antt =====
-- The laws of maps: each operation in `if` form, and uniqueness of keys.
use open_workflow_studio.Prelude.{
  ◌≡◌, refl, false, none, some, [], ◌∷◌, ◌++◌, arith, if◌then◌else◌, append-nil,
}
use open_workflow_studio.Text.{Text, ◌==◌, ==_iff, ==_refl, mem}
use open_workflow_studio.Assoc.{Assoc, get, has, set, delete, keys, IsUnique}

module _ {ℓ} {V : Type ℓ} where
  pub get-set :
      (j k : Text) (v : V) (m : Assoc V) → get j (set k v m) ≡ (if j == k then some v else get j m)
  unfolding get set
  get-set j k v [] = refl
  get-set j k v ((i, w) ∷ m) = ground (arith, get-set j k v m, ==_iff j k, ==_iff k i, ==_iff j i)

  pub get-delete :
      (j k : Text) (m : Assoc V) → get j (delete k m) ≡ (if j == k then none else get j m)
  unfolding get delete
  get-delete j k [] = ground arith
  get-delete j k ((i, w) ∷ m) = ground (arith, get-delete j k m, ==_iff j k, ==_iff k i, ==_iff j i)

  pub set-IsUnique : (k : Text) (v : V) (m : Assoc V) → IsUnique m → IsUnique (set k v m)
  unfolding set get
  set-IsUnique k v [] h = (refl, tt)
  set-IsUnique k v ((i, w) ∷ m) h =
      ground (arith, set-IsUnique k v m, get-set i k v m, ==_iff k i, ==_iff i k)

  pub delete-IsUnique : (k : Text) (m : Assoc V) → IsUnique m → IsUnique (delete k m)
  unfolding delete get
  delete-IsUnique k [] h = tt
  delete-IsUnique k ((i, w) ∷ m) h =
      ground (arith, delete-IsUnique k m, get-delete i k m, ==_iff k i, ==_iff i k)

  -- A new key goes to the end.
  pub set_new : (k : Text) (v : V) (m : Assoc V) → has k m ≡ false → set k v m ≡ m ++ (k, v) ∷ []
  unfolding set get
  set_new k v [] h = refl
  set_new k v ((i, w) ∷ m) h = ground (arith, set_new k v m)

  -- Deleting a key that is not there changes nothing.
  pub delete_new : (k : Text) (m : Assoc V) → has k m ≡ false → delete k m ≡ m
  unfolding delete get
  delete_new k [] h = refl
  delete_new k ((i, w) ∷ m) h = ground (arith, delete_new k m)

  pub delete-append : (k : Text) (m n : Assoc V) → delete k (m ++ n) ≡ delete k m ++ delete k n
  unfolding delete
  delete-append k [] n = refl
  delete-append k ((i, w) ∷ m) n = ground (arith, delete-append k m n)

  -- Adding a new key and deleting it gives back the map.
  pub delete-set : (k : Text) (v : V) (m : Assoc V) → has k m ≡ false → delete k (set k v m) ≡ m
  unfolding delete
  delete-set k v m h = simp (set_new k v m h, delete-append, delete_new k m h, ==_refl, append-nil)

  pub mem-keys : (k : Text) (m : Assoc V) → mem k (keys m) ≡ has k m
  unfolding mem get
  mem-keys k [] = refl
  mem-keys k ((i, w) ∷ m) = ground (arith, mem-keys k m)

  -- Writing what is there changes nothing.
  pub set_same : (k : Text) (v : V) (m : Assoc V) → get k m ≡ some v → set k v m ≡ m
  unfolding get set
  set_same k v [] h = cc
  set_same k v ((i, w) ∷ m) h = ground (arith, set_same k v m)

  -- Only the last of two writes to a key counts.
  pub set-set : (k : Text) (v w : V) (m : Assoc V) → set k v (set k w m) ≡ set k v m
  unfolding set
  set-set k v w [] = rw (==_refl k) refl
  set-set k v w ((i, x) ∷ m) = ground (arith, set-set k v w m, ==_refl k)
