-- ===== src/Value/Assign.antt =====
-- Spreading an object over a base whose keys it begins with gives the object.
use open_workflow_studio.Prelude.{◌≡◌, refl, false, [], ◌∷◌, ◌++◌, append-nil, ap, sym, ◌∙◌}
use open_workflow_studio.Assoc
use open_workflow_studio.Assoc.{Assoc, IsUnique}
use open_workflow_studio.Assoc.Laws.{set_new}
use open_workflow_studio.Assoc.Middle.{fresh-middle, set-middle, regroup}
use open_workflow_studio.Value.{Value, assign}

-- The keys of the base are the first keys of the map, in order.
abbrev pub Begins : Assoc Value → Assoc Value → Type 0
Begins [] m = Unit
Begins (_ ∷ _) [] = ⊥
Begins ((k, _) ∷ base) ((j, _) ∷ m) = (k ≡ j) × Begins base m

assign-over :
    (p base m : Assoc Value) → Begins base m → IsUnique (p ++ m) → assign (p ++ base) m ≡ p ++ m
assign-over p [] [] h u = refl
assign-over p (_ ∷ _) [] h u = absurd h
assign-over p [] ((k, v) ∷ m) h u =
    let new : Assoc.has k (p ++ []) ≡ false = rw append-nil (fresh-middle k v p m u) in
    let u' : IsUnique ((p ++ (k, v) ∷ []) ++ m) = rw (regroup p m (k, v)) u in
    let ih = assign-over (p ++ (k, v) ∷ []) [] m tt u' in
    ap (λ b. assign b m)
      (set_new k v (p ++ []) new
        ∙ ap (λ b. b ++ (k, v) ∷ []) (append-nil p)
        ∙ sym (append-nil (p ++ (k, v) ∷ [])))
    ∙ ih
    ∙ regroup p m (k, v)
assign-over p ((j, w) ∷ base) ((k, v) ∷ m) (e, h) u =
    let u' : IsUnique ((p ++ (k, v) ∷ []) ++ m) = rw (regroup p m (k, v)) u in
    let ih = assign-over (p ++ (k, v) ∷ []) base m h u' in
    ap (λ b. assign b m)
      (rw e (set-middle k v w p base (fresh-middle k v p m u)) ∙ sym (regroup p base (k, v)))
    ∙ ih
    ∙ regroup p m (k, v)

pub assign-Begins : (base m : Assoc Value) → Begins base m → IsUnique m → assign base m ≡ m
assign-Begins base m h u = assign-over [] base m h u
