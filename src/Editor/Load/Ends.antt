-- ===== src/Editor/Load/Ends.antt =====
-- How loading a workflow ends: with a counter that fits the nodes, or half-way by an exception.
use open_workflow_studio.Prelude.{
  ℕ, ◌<◌, ◌≡◌, refl, sym, subst, true, false, Bool-cases, Option, none, some, List, [], ◌∷◌,
  Option-cases, inl, inr, arith,
}
use open_workflow_studio.Text.{Text, codes, ◌==◌, ==_iff}
use open_workflow_studio.Text.Decimal.{only_digits, parse_digits, parse_digits-append-print}
use open_workflow_studio.Assoc
use open_workflow_studio.Assoc.{Assoc}
use open_workflow_studio.Assoc.Laws.{get-set}
use open_workflow_studio.Connection.{ConnectionData}
use open_workflow_studio.Node
use open_workflow_studio.Node.{NodeData, BaseNode}
use open_workflow_studio.Editor.{suc, Editor, emit, clear, generate_node_id}
use open_workflow_studio.Editor.Valid.{Counted}
use open_workflow_studio.Editor.Load.{
  WorkflowData, Outcome, loaded, threw, list_or, raise, finish_load, load_nodes, from_json,
}

-- The counter is not below the number of an id in the map.
abbrev Covers : ℕ → Assoc BaseNode → Type 0
Covers m nodes = (k : Text) → Assoc.has k nodes ≡ true → Counted m k

abbrev Ends : Outcome → Type 0
Ends (loaded ed) = Covers ed.id_counter ed.nodes
Ends (threw ed) = (ed.id_counter ≡ 0) × (ed.connections ≡ [])

raise-Counted : (o : Option ℕ) (m : ℕ) (k : Text) → Counted m k → Counted (raise o m) k
raise-Counted none m k c = c
raise-Counted (some n) m k c = λ i e. omega (arith, c i e)

raise_own : (m : ℕ) (t : Text) → Counted (raise (parse_digits t) m) t
raise_own m t i e = rw e (omega arith)

set-Covers :
    (m : ℕ) (t : Text) (n : BaseNode) (nodes : Assoc BaseNode)
    → Covers m nodes
    → Covers (raise (parse_digits t) m) (Assoc.set t n nodes)
set-Covers m t n nodes c k h = elim (Bool-cases (k == t)) [
  | inl same ↦
      subst (Counted (raise (parse_digits t) m)) (sym ((==_iff k t).0 same)) (raise_own m t)
  | inr other ↦ raise-Counted (parse_digits t) m k (c k (ground (arith, get-set k t n nodes)))
]

load_nodes-Ends :
    (cs : List ConnectionData) (ds : List NodeData) (m : ℕ) (ed : Editor)
    → ed.id_counter ≡ 0
    → ed.connections ≡ []
    → Covers m ed.nodes
    → Ends (load_nodes ds m (finish_load cs) ed)
unfolding emit
load_nodes-Ends cs [] m ed z q c = c
load_nodes-Ends cs (d ∷ ds) m ed z q c =
    step (load_nodes-Ends cs ds) (Node.from_json d ed.node_registry)
  where
    step :
        ((m' : ℕ) (ed' : Editor)
          → ed'.id_counter ≡ 0
          → ed'.connections ≡ []
          → Covers m' ed'.nodes
          → Ends (load_nodes ds m' (finish_load cs) ed'))
        → (o : Option BaseNode)
        → Ends (elim o as (λ _. Outcome) [
          | none ↦ threw ed
          | some n ↦ elim n.id as (λ _. Outcome) [
            | none ↦ threw ed
            | some t ↦
                load_nodes ds
                  (raise (parse_digits t) m)
                  (finish_load cs)
                  (record ed { nodes = Assoc.set t n ed.nodes })
          ]
        ])
    step ih none = (z, q)
    step ih (some n) = elim (Option-cases n.id) [
      | inl e ↦ rw e (z, q)
      | inr (t, e) ↦ rw e (
          ih (raise (parse_digits t) m) (record ed { nodes = Assoc.set t n ed.nodes }) z q
            (set-Covers m t n ed.nodes c))
    ]

from_json-Ends : (d : WorkflowData) (ed : Editor) → Ends (from_json d ed)
unfolding clear emit Assoc.get
from_json-Ends d ed =
    load_nodes-Ends (list_or d.connections) (list_or d.nodes) 0 (clear ed) refl refl (λ k h. cc)

-- When loading a workflow throws, the editor is left with an id counter of 0 and no connection,
-- whatever the nodes are that were loaded before.
pub from_json_threw :
    (d : WorkflowData) (ed ed' : Editor)
    → from_json d ed ≡ threw ed'
    → (ed'.id_counter ≡ 0) × (ed'.connections ≡ [])
from_json_threw d ed ed' e = subst Ends e (from_json-Ends d ed)

-- When a workflow was loaded whose counter is below 2^53, up to where a JavaScript number counts
-- exactly, no node of the editor has the id that is generated next.
pub from_json_fresh :
    (d : WorkflowData) (ed ed' : Editor)
    → from_json d ed ≡ loaded ed'
    → ed'.id_counter < 9007199254740992
    → Assoc.has (generate_node_id ed').1 ed'.nodes ≡ false
unfolding generate_node_id only_digits
from_json_fresh d ed ed' e below =
    elim (Bool-cases (Assoc.has (generate_node_id ed').1 ed'.nodes)) [
      | inl used ↦ absurd (
          omega (
            arith,
            subst Ends e (from_json-Ends d ed) (generate_node_id ed').1 used (suc ed'.id_counter)
                (parse_digits-append-print (codes "n_") (suc ed'.id_counter) refl),
          ))
      | inr free ↦ free
    ]
