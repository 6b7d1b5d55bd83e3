-- ===== src/Editor/Events.antt =====
-- How the editor's operations end: with an event that tells the whole change, or with no change.
use open_workflow_studio.Prelude.{
  ◌≡◌, refl, Bool, true, false, not, some, [], ◌∷◌, ◌++◌, filter, Bool-cases, Option-cases, inl,
  inr, ◌⊎◌,
}
use open_workflow_studio.Text.{Text, codes, ◌==◌}
use open_workflow_studio.Assoc
use open_workflow_studio.Assoc.{Assoc}
use open_workflow_studio.Value.{Value}
use open_workflow_studio.Connection.{connect, generate_id, involves_node}
use open_workflow_studio.Node.{BaseNode, NodeClass, new_node, Position}
use open_workflow_studio.Editor.{
  Editor, Event, node_add, node_remove, node_move, connection_add, connection_remove, change, emit,
  emit_all, generate_node_id, place_node, add_node, add_node_of_class, remove_node, put_node,
  update_node_position, merge_meta, set_node_meta, set_node_label, add_connection, remove_first,
  remove_connection, has_connection, sockets_fit, clear,
}

abbrev pub is_move : Event → Bool
is_move node_move = true
is_move _ = false

-- The last event is no move and comes after the change, or nothing changed.
abbrev pub Refreshes : Editor → Editor → Type 0
Refreshes old new =
    ((e : Event) × (ed : Editor) × (new ≡ emit e ed) × (is_move e ≡ false)) ⊎ (new ≡ old)

place_node-Refreshes :
    (k : Text) (n : BaseNode) (p : Position) (old ed : Editor)
    → Refreshes old (place_node k n p ed).0
unfolding place_node
place_node-Refreshes k n p old ed =
    inl (node_add, put_node k (record n { id = some k; position = p }) ed, refl, refl)

pub add_node-Refreshes :
    (n : BaseNode) (p : Position) (ed : Editor) → Refreshes ed (add_node n p ed).0
unfolding add_node
add_node-Refreshes n p ed = elim (Option-cases n.id) [
  | inl e ↦ rw (e, add_node) new
  | inr ([], e) ↦ rw (e, add_node) new
  | inr (c ∷ t, e) ↦ rw (e, add_node) (place_node-Refreshes (c ∷ t) n p ed ed)
]
  where
    new : Refreshes ed (place_node (generate_node_id ed).1 n p (generate_node_id ed).0).0
    new = place_node-Refreshes (generate_node_id ed).1 n p ed (generate_node_id ed).0

pub remove_node-Refreshes : (k : Text) (ed : Editor) → Refreshes ed (remove_node k ed).0
unfolding remove_node
remove_node-Refreshes k ed = elim (Option-cases (Assoc.get k ed.nodes)) [
  | inl e ↦ inr (rw (e, remove_node) refl)
  | inr (n, e) ↦ inl (node_remove, deleted, rw (e, remove_node) refl, refl)
]
  where
    told : Editor
    told =
        emit_all connection_remove (filter (involves_node k) ed.connections)
          (record ed { connections = filter (λ c. not (involves_node k c)) ed.connections })

    deleted : Editor
    deleted = record told { nodes = Assoc.delete k told.nodes }

pub set_node_meta-Refreshes :
    (k : Text) (patch : Assoc Value) (ed : Editor) → Refreshes ed (set_node_meta k patch ed).0
unfolding set_node_meta
set_node_meta-Refreshes k patch ed = elim (Option-cases (Assoc.get k ed.nodes)) [
  | inl e ↦ inr (rw (e, set_node_meta) refl)
  | inr (n, e) ↦ inl (
    change (codes "meta"),
    put_node k (record n { meta = merge_meta n.meta patch }) ed,
    rw (e, set_node_meta) refl,
    refl,
  )
]

pub set_node_label-Refreshes :
    (k label : Text) (ed : Editor) → Refreshes ed (set_node_label k label ed).0
unfolding set_node_label
set_node_label-Refreshes k label ed = elim (Option-cases (Assoc.get k ed.nodes)) [
  | inl e ↦ inr (rw (e, set_node_label) refl)
  | inr (n, e) ↦ inl (
    change (codes "label"),
    put_node k (record n { label = label }) ed,
    rw (e, set_node_label) refl,
    refl,
  )
]

pub add_connection-Refreshes :
    (s sh t th : Text) (ed : Editor) → Refreshes ed (add_connection s sh t th ed).0
unfolding add_connection
add_connection-Refreshes s sh t th ed =
    elim (Bool-cases (sockets_fit (Assoc.get s ed.nodes) sh (Assoc.get t ed.nodes) th)) [
      | inr bad ↦ inr (rw bad refl)
      | inl fit ↦ elim (Bool-cases (has_connection (generate_id s sh t th) ed.connections)) [
        | inl dup ↦ inr (rw (fit, dup) refl)
        | inr new ↦ elim (Bool-cases (s == t)) [
          | inl loop ↦ inr (rw (fit, new, loop) refl)
          | inr other ↦ inl (
            connection_add,
            record ed { connections = ed.connections ++ connect s sh t th ∷ [] },
            rw (fit, new, other) refl,
            refl,
          )
        ]
      ]
    ]

pub remove_connection-Refreshes : (i : Text) (ed : Editor) → Refreshes ed (remove_connection i ed).0
unfolding remove_connection
remove_connection-Refreshes i ed = elim (Bool-cases (has_connection i ed.connections)) [
  | inr absent ↦ inr (rw absent refl)
  | inl found ↦ inl (
    connection_remove,
    record ed { connections = remove_first i ed.connections },
    rw found refl,
    refl,
  )
]

pub clear-Refreshes : (old ed : Editor) → Refreshes old (clear ed)
unfolding clear
clear-Refreshes old ed =
    inl (
      change (codes "clear"),
      record ed { nodes = []; connections = []; id_counter = 0 },
      refl,
      refl,
    )

-- A move of a node that is there.
pub update_node_position_found :
    (k : Text) (p : Position) (n : BaseNode) (ed : Editor)
    → Assoc.get k ed.nodes ≡ some n
    → update_node_position k p ed
      ≡ (emit node_move (put_node k (record n { position = p }) ed), true)
unfolding update_node_position
update_node_position_found k p n ed e = rw (e, update_node_position) refl

pub add_node_of_class-Refreshes :
    (k : NodeClass) (p : Position) (ed : Editor) → Refreshes ed (add_node_of_class k p ed).0
unfolding add_node_of_class
add_node_of_class-Refreshes k p ed = add_node-Refreshes (new_node k) p ed
