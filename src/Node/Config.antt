-- ===== src/Node/Config.antt =====
-- Reading a node's configuration back after setting it.
use open_workflow_studio.Prelude.{
  ◌≡◌, refl, Option, none, some, [], ◌∷◌, arith, if◌then◌else◌, ◌∙◌, Option-cases, inl, inr, ap,
  sym,
}
use open_workflow_studio.Text.{Text, ◌==◌, ==_iff}
use open_workflow_studio.Assoc
use open_workflow_studio.Assoc.{Assoc, IsUnique}
use open_workflow_studio.Assoc.Laws.{get-set, set-IsUnique}
use open_workflow_studio.Value.{Value}
use open_workflow_studio.Control.{Control, set_value, get_value}
use open_workflow_studio.Node.{
  BaseNode, config_loop, get_config, set_control, set_controls, set_config,
}

-- The first of two optional values.
abbrev pub or_else {ℓ} : {A : Type ℓ} → Option A → Option A → Option A
or_else none b = b
or_else (some a) b = some a

abbrev pub value_at : Text → Assoc Control → Option Value
value_at k cs = elim (Assoc.get k cs) [ none ↦ none | some c ↦ some (get_value c) ]

get-config_loop :
    (k : Text) (cs : Assoc Control) (m : Assoc Value)
    → IsUnique cs
    → Assoc.get k (config_loop cs m) ≡ or_else (value_at k cs) (Assoc.get k m)
unfolding config_loop Assoc.get
get-config_loop k [] m u = refl
get-config_loop k ((j, c) ∷ cs) m u =
    get-config_loop k cs (Assoc.set j (get_value c) m) u.1
    ∙ ground (arith, get-set k j (get_value c) m, ==_iff k j)

-- The configuration has the value of each control, and nothing else.
pub get-get_config :
    (k : Text) (n : BaseNode)
    → IsUnique n.controls
    → Assoc.get k (get_config n) ≡ value_at k n.controls
unfolding get_config Assoc.get
get-get_config k n u = get-config_loop k n.controls [] u ∙ ground arith

set_control-IsUnique :
    (k : Text) (v : Value) (cs : Assoc Control) → IsUnique cs → IsUnique (set_control k v cs)
unfolding set_control
set_control-IsUnique k v cs u = elim (Option-cases (Assoc.get k cs)) [
  | inl e ↦ rw (e, set_control) u
  | inr (c, e) ↦ rw (e, set_control) (set-IsUnique k (set_value v c) cs u)
]

pub set_controls-IsUnique :
    (config : Assoc Value) (cs : Assoc Control) → IsUnique cs → IsUnique (set_controls config cs)
unfolding set_controls
set_controls-IsUnique [] cs u = u
set_controls-IsUnique ((k, v) ∷ config) cs u =
    set_controls-IsUnique config (set_control k v cs) (set_control-IsUnique k v cs u)

-- What is read after a write, if there is a control.
abbrev pub written : Option Value → Option Value → Option Value
written new none = none
written new (some old) = or_else new (some old)

value_at-set_control :
    (k j : Text) (v : Value) (cs : Assoc Control)
    → value_at k (set_control j v cs)
      ≡ (if k == j then written (some v) (value_at k cs) else value_at k cs)
unfolding set_control set_value get_value
value_at-set_control k j v cs = elim (Option-cases (Assoc.get j cs)) [
  | inl e ↦ ground (arith, ==_iff k j)
  | inr (c, e) ↦ ground (arith, ==_iff k j, get-set k j (set_value v c) cs)
]

value_at-set_controls :
    (k : Text) (config : Assoc Value) (cs : Assoc Control)
    → IsUnique config
    → value_at k (set_controls config cs) ≡ written (Assoc.get k config) (value_at k cs)
unfolding set_controls Assoc.get
value_at-set_controls k [] cs u = ground arith
value_at-set_controls k ((j, v) ∷ config) cs u =
    value_at-set_controls k config (set_control j v cs) u.1
    ∙ ground (arith, value_at-set_control k j v cs, ==_iff k j)

-- After `setConfig` a key with a control reads the value that was given, or else its old one; a
-- key without a control is not in the configuration, given or not. The keys of the controls and of
-- the given values do not repeat.
pub get_config-set_config :
    (k : Text) (config : Assoc Value) (n : BaseNode)
    → IsUnique n.controls
    → IsUnique config
    → Assoc.get k (get_config (set_config config n))
      ≡ written (Assoc.get k config) (Assoc.get k (get_config n))
unfolding set_config
get_config-set_config k config n u w =
    get-get_config k (set_config config n) (set_controls-IsUnique config n.controls u)
    ∙ value_at-set_controls k config n.controls w
    ∙ ap (written (Assoc.get k config)) (sym (get-get_config k n u))

pub id-set_config : (config : Assoc Value) (n : BaseNode) → (set_config config n).id ≡ n.id
unfolding set_config
id-set_config config n = refl
