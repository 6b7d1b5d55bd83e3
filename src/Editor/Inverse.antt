-- ===== src/Editor/Inverse.antt =====
-- Removing a connection that was just added gives back the editor.
use open_workflow_studio.Prelude.{
  ◌≡◌, refl, true, false, some, List, [], ◌∷◌, ◌++◌, arith, Bool-cases, inl, inr,
}
use open_workflow_studio.Text.{Text, ◌==◌, ==_refl}
use open_workflow_studio.Assoc
use open_workflow_studio.Assoc.{Assoc}
use open_workflow_studio.Connection.{Connection, connect, generate_id}
use open_workflow_studio.Editor
use open_workflow_studio.Editor.{
  Editor, has_connection, remove_first, sockets_fit, emit, put_node, node_move,
}

has_connection-append :
    (k : Connection) (cs : List Connection) → has_connection k.id (cs ++ k ∷ []) ≡ true
has_connection-append k [] = rw (==_refl k.id) refl
has_connection-append k (c ∷ cs) = ground (arith, has_connection-append k cs)

remove_first-append :
    (k : Connection) (cs : List Connection)
    → has_connection k.id cs ≡ false
    → remove_first k.id (cs ++ k ∷ []) ≡ cs
unfolding remove_first
remove_first-append k [] h = rw (==_refl k.id) refl
remove_first-append k (c ∷ cs) h = ground (arith, remove_first-append k cs)

-- Adding a connection that is not there, and removing it.
pub remove-added :
    (k : Connection) (ed : Editor)
    → has_connection k.id ed.connections ≡ false
    → record (Editor.remove_connection k.id
        (record ed { connections = ed.connections ++ k ∷ []; emitted = [] })).0 { emitted = [] }
      ≡ record ed { emitted = [] }
unfolding Editor.remove_connection emit
remove-added k ed h =
    rw (has_connection-append k ed.connections, remove_first-append k ed.connections h) refl

pub add_connection-result :
    (s sh t th : Text) (ed : Editor) (c : Connection)
    → (Editor.add_connection s sh t th ed).1 ≡ some c
    → (c ≡ connect s sh t th)
      × (has_connection (generate_id s sh t th) ed.connections ≡ false)
      × (record (Editor.add_connection s sh t th ed).0 { emitted = [] }
          ≡ record ed { connections = ed.connections ++ connect s sh t th ∷ []; emitted = [] })
unfolding Editor.add_connection emit
add_connection-result s sh t th ed c e =
    elim (Bool-cases (sockets_fit (Assoc.get s ed.nodes) sh (Assoc.get t ed.nodes) th)) [
      | inr bad ↦ let f = rw bad at e in cc
      | inl fit ↦ elim (Bool-cases (has_connection (generate_id s sh t th) ed.connections)) [
        | inl dup ↦ let f = rw (fit, dup) at e in cc
        | inr new ↦ elim (Bool-cases (s == t)) [
          | inl same ↦ let f = rw (fit, new, same) at e in cc
          | inr other ↦
              let f : some (connect s sh t th) ≡ some c = rw (fit, new, other) at e in
              (cc, new, rw (fit, new, other) refl)
        ]
      ]
    ]
