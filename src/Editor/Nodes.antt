-- ===== src/Editor/Nodes.antt =====
-- The operations on nodes keep the editor's invariant, and a generated id is free.
use open_workflow_studio.Prelude.{
  ◌∙◌, sym, subst, ℕ, none, max, suc, ◌≡◌, refl, false, some, [], ◌∷◌, arith, Bool-cases,
  Option-cases, inl, inr,
}
use open_workflow_studio.Text.{Text, codes}
use open_workflow_studio.Text.Decimal.{
  parse_digits, parse_digits-append-print, parse_digits-nil, only_digits,
}
use open_workflow_studio.Assoc
use open_workflow_studio.Assoc.{Assoc, IsUnique}
use open_workflow_studio.Value.{Value}
use open_workflow_studio.Node.{NodeClass, new_node, BaseNode, Position}
use open_workflow_studio.Editor.{
  Editor, emit, generate_node_id, place_node, add_node, add_node_of_class, update_node_position,
  set_node_meta, set_node_label, clear,
}
use open_workflow_studio.Editor.Valid.{
  Counted, IsValid, emit-IsValid, put_node-IsValid, update_node-IsValid,
}

-- The id that is generated has a number above the counter as it was.
parse_digits-generated :
    (ed : Editor) → parse_digits (generate_node_id ed).1 ≡ some (suc ed.id_counter)
unfolding generate_node_id only_digits
parse_digits-generated ed = parse_digits-append-print (codes "n_") (suc ed.id_counter) refl

-- In a valid editor no node has the id that is generated next.
pub generate_node_id_fresh :
    (ed : Editor) → IsValid ed → Assoc.has (generate_node_id ed).1 ed.nodes ≡ false
generate_node_id_fresh ed v = elim (Bool-cases (Assoc.has (generate_node_id ed).1 ed.nodes)) [
  | inl used ↦ absurd (
      omega (
        arith,
        v.counted (generate_node_id ed).1 used (suc ed.id_counter) (parse_digits-generated ed),
      ))
  | inr free ↦ free
]

generate_node_id-IsValid : (ed : Editor) → IsValid ed → IsValid (generate_node_id ed).0
unfolding generate_node_id
generate_node_id-IsValid ed v = record {
  unique = v.unique;
  keyed = v.keyed;
  linked = v.linked;
  distinct = v.distinct;
  counted = λ k h m e. omega (arith, v.counted k h m e);
}

generated_counter : (ed : Editor) → (generate_node_id ed).0.id_counter ≡ suc ed.id_counter
unfolding generate_node_id
generated_counter ed = refl

generated-Counted :
    (ed : Editor) → Counted (generate_node_id ed).0.id_counter (generate_node_id ed).1
generated-Counted ed m e =
    let same : suc ed.id_counter ≡ m = cc (e, parse_digits-generated ed) in
    omega (arith, same, generated_counter ed)

place_node-IsValid :
    (k : Text) (n : BaseNode) (p : Position) (ed : Editor)
    → Counted ed.id_counter k
    → IsValid ed
    → IsValid (place_node k n p ed).0
unfolding place_node
place_node-IsValid k n p ed c v =
    emit-IsValid _ (put_node-IsValid k (record n { id = some k; position = p }) ed refl c v)

-- With an id of its own, the node's number must not be above the counter.
pub add_node-IsValid :
    (n : BaseNode) (p : Position) (ed : Editor)
    → ((k : Text) → n.id ≡ some k → Counted ed.id_counter k)
    → IsValid ed
    → IsValid (add_node n p ed).0
unfolding add_node
add_node-IsValid n p ed c v = elim (Option-cases n.id) [
  | inl e ↦ rw (e, add_node) new
  | inr ([], e) ↦ rw (e, add_node) new
  | inr (x ∷ t, e) ↦ rw (e, add_node) (place_node-IsValid (x ∷ t) n p ed (c (x ∷ t) e) v)
]
  where
    new : IsValid (place_node (generate_node_id ed).1 n p (generate_node_id ed).0).0
    new =
        place_node-IsValid (generate_node_id ed).1 n p (generate_node_id ed).0
          (generated-Counted ed) (generate_node_id-IsValid ed v)

pub update_node_position-IsValid :
    (k : Text) (p : Position) (ed : Editor) → IsValid ed → IsValid (update_node_position k p ed).0
unfolding update_node_position
update_node_position-IsValid k p ed v = elim (Option-cases (Assoc.get k ed.nodes)) [
  | inl e ↦ rw (e, update_node_position) v
  | inr (n, e) ↦
      rw (e, update_node_position) (emit-IsValid _ (update_node-IsValid k n _ ed e refl v))
]

pub set_node_meta-IsValid :
    (k : Text) (patch : Assoc Value) (ed : Editor)
    → IsValid ed
    → IsValid (set_node_meta k patch ed).0
unfolding set_node_meta
set_node_meta-IsValid k patch ed v = elim (Option-cases (Assoc.get k ed.nodes)) [
  | inl e ↦ rw (e, set_node_meta) v
  | inr (n, e) ↦ rw (e, set_node_meta) (emit-IsValid _ (update_node-IsValid k n _ ed e refl v))
]

pub set_node_label-IsValid :
    (k label : Text) (ed : Editor) → IsValid ed → IsValid (set_node_label k label ed).0
unfolding set_node_label
set_node_label-IsValid k label ed v = elim (Option-cases (Assoc.get k ed.nodes)) [
  | inl e ↦ rw (e, set_node_label) v
  | inr (n, e) ↦ rw (e, set_node_label) (emit-IsValid _ (update_node-IsValid k n _ ed e refl v))
]

pub clear-IsValid : (ed : Editor) → IsValid (clear ed)
unfolding clear Assoc.get
clear-IsValid ed =
    emit-IsValid _
      (record { unique = tt; keyed = λ k n e. cc; counted = λ k e. cc; linked = tt; distinct = tt })

-- A class makes a node without an id, which gets a new one.
pub add_node_of_class-IsValid :
    (k : NodeClass) (p : Position) (ed : Editor)
    → (new_node k).id ≡ none
    → IsValid ed
    → IsValid (add_node_of_class k p ed).0
unfolding add_node_of_class
add_node_of_class-IsValid k p ed h v = add_node-IsValid (new_node k) p ed (λ j e. cc) v

raise-IsValid :
    (m : ℕ) (ed : Editor) → IsValid ed → IsValid (record ed { id_counter = max ed.id_counter m })
raise-IsValid m ed v = record {
  unique = v.unique;
  keyed = v.keyed;
  counted = λ k h i e. omega (arith, v.counted k h i e);
  linked = v.linked;
  distinct = v.distinct;
}

-- A forced id is counted afterwards, as `addNodeWithId` does.
pub add_forced-IsValid :
    (n : BaseNode) (k : Text) (m : ℕ) (p : Position) (ed : Editor)
    → n.id ≡ some k
    → parse_digits k ≡ some m
    → IsValid ed
    → IsValid (record (add_node n p ed).0 { id_counter = max (add_node n p ed).0.id_counter m })
unfolding add_node place_node emit
add_forced-IsValid n [] m p ed e d v = absurd (absurd_digits (sym parse_digits-nil ∙ d))
  where
    absurd_digits : none ≡ some m → ⊥
    absurd_digits q = cc
add_forced-IsValid n (c ∷ t) m p ed e d v =
    rw (e, add_node)
      (place_node-IsValid (c ∷ t) n p (record ed { id_counter = max ed.id_counter m })
        (λ i f. let same : m ≡ i = cc (d, f) in omega (arith, same)) (raise-IsValid m ed v))

-- A forced id without a digit takes no number.
pub add_unnumbered-IsValid :
    (n : BaseNode) (k : Text) (p : Position) (ed : Editor)
    → n.id ≡ some k
    → parse_digits k ≡ none
    → IsValid ed
    → IsValid (add_node n p ed).0
add_unnumbered-IsValid n k p ed e d v =
    add_node-IsValid n p ed (λ j f i q. absurd (numbered j f i q)) v
  where
    numbered : (j : Text) → n.id ≡ some j → (i : ℕ) → parse_digits j ≡ some i → ⊥
    numbered j f i q =
        let same : k ≡ j = cc (e, f) in cc (subst (λ x. parse_digits x ≡ some i) (sym same) q, d)
