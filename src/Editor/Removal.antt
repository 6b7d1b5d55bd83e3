-- ===== src/Editor/Removal.antt =====
-- Removing a node, with its connections, keeps the editor's invariant.
use open_workflow_studio.Prelude.{
  ◌≡◌, Bool, false, not, List, [], ◌∷◌, filter, All, All-filter, arith, Option-cases, inl, inr,
}
use open_workflow_studio.Text.{Text, mem, NoRepeat}
use open_workflow_studio.Assoc
use open_workflow_studio.Assoc.{Assoc, IsUnique}
use open_workflow_studio.Assoc.Laws.{get-delete, delete-IsUnique}
use open_workflow_studio.Connection.{Connection, involves_node}
use open_workflow_studio.Node.{BaseNode}
use open_workflow_studio.Editor.{Editor, Event, connection_remove, emit, emit_all, remove_node}
use open_workflow_studio.Editor.Valid.{Links, ids, IsValid, emit-IsValid, emit_all-IsValid}

-- No connection of the editor touches the node.
abbrev Detached : Text → Editor → Type 0
Detached k ed = All (λ c. involves_node k c ≡ false) ed.connections

emit_all-Detached :
    (e : Event) (cs : List Connection) (k : Text) (ed : Editor)
    → Detached k ed
    → Detached k (emit_all e cs ed)
unfolding emit_all emit
emit_all-Detached e [] k ed h = h
emit_all-Detached e (c ∷ cs) k ed h = emit_all-Detached e cs k (emit e ed) h

not_involved :
    (k : Text) (cs : List Connection)
    → All (λ c. involves_node k c ≡ false) (filter (λ c. not (involves_node k c)) cs)
not_involved k [] = tt
not_involved k (c ∷ cs) = ground (arith, not_involved k cs)

Links-delete :
    (k : Text) (nodes : Assoc BaseNode) (cs : List Connection)
    → All (λ c. involves_node k c ≡ false) cs
    → All (Links nodes) cs
    → All (Links (Assoc.delete k nodes)) cs
Links-delete k nodes [] d h = tt
Links-delete k nodes (c ∷ cs) (f, d) (l, h) = (
  record {
    from_node = ground (arith, get-delete c.source k nodes, l.from_node);
    to_node = ground (arith, get-delete c.target k nodes, l.to_node);
    no_loop = l.no_loop;
    named = l.named;
  },
  Links-delete k nodes cs d h,
)

-- Deleting a node that nothing is connected to.
delete_node-IsValid :
    (k : Text) (ed : Editor)
    → Detached k ed
    → IsValid ed
    → IsValid (record ed { nodes = Assoc.delete k ed.nodes })
delete_node-IsValid k ed d v = record {
  unique = delete-IsUnique k ed.nodes v.unique;
  keyed = λ j n e. v.keyed j n (ground (arith, get-delete j k ed.nodes));
  counted = λ j h. v.counted j (ground (arith, get-delete j k ed.nodes));
  linked = Links-delete k ed.nodes ed.connections d v.linked;
  distinct = v.distinct;
}

mem-ids-filter :
    (p : Connection → Bool) (i : Text) (cs : List Connection)
    → mem i (ids cs) ≡ false
    → mem i (ids (filter p cs)) ≡ false
unfolding mem
mem-ids-filter p i [] h = h
mem-ids-filter p i (c ∷ cs) h = ground (arith, mem-ids-filter p i cs)

NoRepeat-ids-filter :
    (p : Connection → Bool) (cs : List Connection)
    → NoRepeat (ids cs)
    → NoRepeat (ids (filter p cs))
NoRepeat-ids-filter p [] h = tt
NoRepeat-ids-filter p (c ∷ cs) h =
    ground (arith, NoRepeat-ids-filter p cs, mem-ids-filter p c.id cs)

filter_connections-IsValid :
    (p : Connection → Bool) (ed : Editor)
    → IsValid ed
    → IsValid (record ed { connections = filter p ed.connections })
filter_connections-IsValid p ed v = record {
  unique = v.unique;
  keyed = v.keyed;
  counted = v.counted;
  linked = All-filter (Links ed.nodes) p ed.connections v.linked;
  distinct = NoRepeat-ids-filter p ed.connections v.distinct;
}

-- Removing a node, present or not, keeps the editor valid: no connection is left at a node that is
-- gone.
pub remove_node-IsValid : (k : Text) (ed : Editor) → IsValid ed → IsValid (remove_node k ed).0
unfolding remove_node
remove_node-IsValid k ed v = elim (Option-cases (Assoc.get k ed.nodes)) [
  | inl e ↦ rw (e, remove_node) v
  | inr (n, e) ↦ rw (e, remove_node) (emit-IsValid _ (delete_node-IsValid k told detached valid))
]
  where
    cut : Editor
    cut = record ed { connections = filter (λ c. not (involves_node k c)) ed.connections }

    removed : List Connection
    removed = filter (involves_node k) ed.connections

    told : Editor
    told = emit_all connection_remove removed cut

    detached : Detached k told
    detached = emit_all-Detached connection_remove removed k cut (not_involved k ed.connections)

    valid : IsValid told
    valid = emit_all-IsValid connection_remove removed cut (filter_connections-IsValid _ ed v)
