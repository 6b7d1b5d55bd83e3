-- ===== src/Node/Restore.antt =====
-- A node that is written and read again, by the class that made it.
use open_workflow_studio.Prelude.{
  ◌≡◌, ◌≢◌, refl, sym, ap, ◌∙◌, false, some, [], ◌∷◌, ◌++◌, arith, append-nil,
}
use open_workflow_studio.Text.{Text}
use open_workflow_studio.Assoc
use open_workflow_studio.Assoc.{Assoc, IsUnique}
use open_workflow_studio.Assoc.Laws.{set_new}
use open_workflow_studio.Assoc.Middle.{fresh-middle, set-middle, get-middle, regroup}
use open_workflow_studio.Value.{Value}
use open_workflow_studio.Value.Assign.{Begins, assign-Begins}
use open_workflow_studio.Control.{Control, set_value, get_value}
use open_workflow_studio.Node.{
  BaseNode, NodeClass, new_node, config_loop, get_config, set_control, set_controls, set_config,
  to_json, from_json, label_or,
}

-- The controls differ in their values alone.
abbrev pub SameControls : Assoc Control → Assoc Control → Type 0
SameControls [] [] = Unit
SameControls [] (_ ∷ _) = ⊥
SameControls (_ ∷ _) [] = ⊥
SameControls ((k, c) ∷ cs) ((j, d) ∷ ds) =
    (k ≡ j) × (set_value (get_value d) c ≡ d) × SameControls cs ds

-- A node as its class and the calls that set its fields make it: what the class gives is there, and
-- its metadata begin with the class's.
pub record IsInstance (registry : Assoc NodeClass) (n : BaseNode) : Type 0 where
  pub class : NodeClass
  pub known : Assoc.get n.type registry ≡ some class
  pub type : (new_node class).type ≡ n.type
  pub icon : (new_node class).icon ≡ n.icon
  pub category : (new_node class).category ≡ n.category
  pub inputs : (new_node class).inputs ≡ n.inputs
  pub outputs : (new_node class).outputs ≡ n.outputs
  pub labelled : n.label ≢ []
  pub shaped : SameControls (new_node class).controls n.controls
  pub unique : IsUnique n.controls
  pub begins : Begins (new_node class).meta n.meta
  pub meta_unique : IsUnique n.meta

abbrev values_of : Assoc Control → Assoc Value
values_of [] = []
values_of ((k, c) ∷ cs) = (k, get_value c) ∷ values_of cs

has-values_of : (k : Text) (cs : Assoc Control) → Assoc.has k (values_of cs) ≡ Assoc.has k cs
unfolding Assoc.get
has-values_of k [] = refl
has-values_of k ((j, c) ∷ cs) = ground (arith, has-values_of k cs)

values_of-IsUnique : (cs : Assoc Control) → IsUnique cs → IsUnique (values_of cs)
values_of-IsUnique [] u = tt
values_of-IsUnique ((k, c) ∷ cs) (h, u) = (has-values_of k cs ∙ h, values_of-IsUnique cs u)

config_loop-values_of :
    (cs : Assoc Control) (m : Assoc Value)
    → IsUnique (m ++ values_of cs)
    → config_loop cs m ≡ m ++ values_of cs
unfolding config_loop
config_loop-values_of [] m u = sym (append-nil m)
config_loop-values_of ((k, c) ∷ cs) m u =
    let new : Assoc.has k m ≡ false = fresh-middle k (get_value c) m (values_of cs) u in
    let u' : IsUnique ((m ++ (k, get_value c) ∷ []) ++ values_of cs) =
      rw (regroup m (values_of cs) (k, get_value c)) u in
    ap (config_loop cs) (set_new k (get_value c) m new)
    ∙ config_loop-values_of cs (m ++ (k, get_value c) ∷ []) u'
    ∙ regroup m (values_of cs) (k, get_value c)

get_config-values_of : (n : BaseNode) → IsUnique n.controls → get_config n ≡ values_of n.controls
unfolding get_config
get_config-values_of n u = config_loop-values_of n.controls [] (values_of-IsUnique n.controls u)

set_control-middle :
    (k : Text) (c d : Control) (p cs : Assoc Control)
    → Assoc.has k p ≡ false
    → set_value (get_value d) c ≡ d
    → set_control k (get_value d) (p ++ (k, c) ∷ cs) ≡ p ++ (k, d) ∷ cs
unfolding set_control
set_control-middle k c d p cs new e =
    rw (get-middle k c p cs new, set_control)
      (set-middle k (set_value (get_value d) c) c p cs new ∙ ap (λ x. p ++ (k, x) ∷ cs) e)

set_controls-values_of :
    (p cs ds : Assoc Control)
    → SameControls cs ds
    → IsUnique (p ++ ds)
    → set_controls (values_of ds) (p ++ cs) ≡ p ++ ds
unfolding set_controls
set_controls-values_of p [] [] h u = refl
set_controls-values_of p [] (_ ∷ _) h u = absurd h
set_controls-values_of p (_ ∷ _) [] h u = absurd h
set_controls-values_of p ((j, c) ∷ cs) ((k, d) ∷ ds) (e, f, h) u =
    let u' : IsUnique ((p ++ (k, d) ∷ []) ++ ds) = rw (regroup p ds (k, d)) u in
    ap (set_controls (values_of ds))
      (rw e (set_control-middle k c d p cs (fresh-middle k d p ds u) f) ∙ sym (regroup p cs (k, d)))
    ∙ set_controls-values_of (p ++ (k, d) ∷ []) cs ds h u'
    ∙ regroup p ds (k, d)

label_or-nonempty : (t l : Text) → t ≢ [] → label_or (some t) l ≡ t
label_or-nonempty [] l h = absurd (h refl)
label_or-nonempty (c ∷ t) l h = refl

pub from_json-to_json :
    (registry : Assoc NodeClass) (n : BaseNode)
    → IsInstance registry n
    → from_json (to_json n) registry ≡ some n
unfolding set_config
from_json-to_json registry n h =
    let k = new_node h.class in
    let same : set_controls (get_config n) k.controls ≡ n.controls =
      ap (λ m. set_controls m k.controls) (get_config-values_of n h.unique)
      ∙ set_controls-values_of [] k.controls n.controls h.shaped h.unique in
    rw (h.known, from_json)
      (λ i. some (record {
        id = n.id;
        type = h.type i;
        label = label_or-nonempty n.label k.label h.labelled i;
        icon = h.icon i;
        category = h.category i;
        position = n.position;
        inputs = h.inputs i;
        outputs = h.outputs i;
        controls = same i;
        meta = assign-Begins k.meta n.meta h.begins h.meta_unique i;
      }))
