-- ===== src/Value.antt =====
-- Values of the program's data: what JSON holds, and undefined. Numbers are integers here.
pub mod Assign
pub mod Json
use open_workflow_studio.Prelude.{
  ℕ, zero, suc, ◌≡◌, refl, ap, Bool, true, false, if◌then◌else◌, Option, none, some, [], ◌∷◌,
}
use open_workflow_studio.Prelude.Int.{ℤ, pos}
use open_workflow_studio.Text.{Text}
use open_workflow_studio.Text.Decimal.{print}
use open_workflow_studio.Assoc
use open_workflow_studio.Assoc.{Assoc}

mutual
  pub data Value : Type 0 where
    undefined null : Value
    bool : Bool → Value
    num : ℤ → Value
    str : Text → Value
    arr : Items → Value
    obj : Fields → Value

  pub data Items : Type 0 where
    nil : Items
    cons : Value → Items → Items

  pub data Fields : Type 0 where
    end : Fields
    field : Text → Value → Fields → Fields

-- The entries of an object, in order of insertion.
abbrev pub entries : Fields → Assoc Value
entries end = []
entries (field k v f) = (k, v) ∷ entries f

abbrev pub object : Assoc Value → Fields
object [] = end
object ((k, v) ∷ m) = field k v (object m)

pub entries-object : (m : Assoc Value) → entries (object m) ≡ m
entries-object [] = refl
entries-object ((k, v) ∷ m) = ap ((k, v) ∷◌) (entries-object m)

abbrev pub truthy : Value → Bool
truthy undefined = false
truthy null = false
truthy (bool b) = b
truthy (num (pos zero)) = false
truthy (num _) = true
truthy (str []) = false
truthy (str _) = true
truthy (arr _) = true
truthy (obj _) = true

-- `v || w`
abbrev pub or_value : Value → Value → Value
or_value v w = if truthy v then v else w

abbrev pub or_undefined : Option Value → Value
or_undefined none = undefined
or_undefined (some v) = v

-- `v.k`, for a `v` that is not null or undefined and a `k` of its own.
abbrev pub prop : Text → Value → Value
prop k (obj f) = or_undefined (Assoc.get k (entries f))
prop k _ = undefined

-- What `{...v}` holds. Arrays and strings are spread by their indices.
spread_items : ℕ → Items → Assoc Value
spread_items i nil = []
spread_items i (cons v vs) = (print i, v) ∷ spread_items (suc i) vs

spread_text : ℕ → Text → Assoc Value
spread_text i [] = []
spread_text i (c ∷ s) = (print i, str (c ∷ [])) ∷ spread_text (suc i) s

abbrev pub spread : Value → Assoc Value
unfolding spread_items spread_text
spread (obj f) = entries f
spread (arr vs) = spread_items 0 vs
spread (str s) = spread_text 0 s
spread _ = []

-- `{...base, ...patch}`
abbrev pub assign : Assoc Value → Assoc Value → Assoc Value
assign base [] = base
assign base ((k, v) ∷ patch) = assign (Assoc.set k v base) patch
