-- ===== src/Editor/Links.antt =====
-- The operations on connections keep the editor's invariant.
use open_workflow_studio.Prelude.{
  ◌≡◌, refl, true, false, Option, none, some, List, [], ◌∷◌, ◌++◌, ◌∙◌, ap, All, All-append,
  is_some, arith, Bool-cases, inl, inr,
}
use open_workflow_studio.Text.{Text, ◌==◌, ==_iff, mem, NoRepeat, NoRepeat-append}
use open_workflow_studio.Assoc
use open_workflow_studio.Assoc.{Assoc, IsUnique}
use open_workflow_studio.Connection.{Connection, connect, generate_id}
use open_workflow_studio.Node.{BaseNode}
use open_workflow_studio.Editor.{
  Editor, add_connection, remove_first, remove_connection, has_connection, sockets_fit,
}
use open_workflow_studio.Editor.Valid.{Links, ids, IsValid, emit-IsValid}

ids-append : (cs ds : List Connection) → ids (cs ++ ds) ≡ ids cs ++ ids ds
ids-append [] ds = refl
ids-append (c ∷ cs) ds = ap (c.id ∷◌) (ids-append cs ds)

mem-ids : (i : Text) (cs : List Connection) → mem i (ids cs) ≡ has_connection i cs
unfolding mem
mem-ids i [] = refl
mem-ids i (c ∷ cs) = ground (arith, mem-ids i cs, ==_iff i c.id, ==_iff c.id i)

sockets_fit_ends :
    (s : Option BaseNode) (sh : Text) (t : Option BaseNode) (th : Text)
    → sockets_fit s sh t th ≡ true
    → (is_some s ≡ true) × (is_some t ≡ true)
unfolding sockets_fit
sockets_fit_ends none sh t th h = cc
sockets_fit_ends (some s) sh none th h = cc
sockets_fit_ends (some s) sh (some t) th h = (refl, refl)

-- Adding a connection, refused or not, keeps the editor valid: the ends exist and differ, and no
-- connection stands twice.
pub add_connection-IsValid :
    (s sh t th : Text) (ed : Editor) → IsValid ed → IsValid (add_connection s sh t th ed).0
unfolding add_connection
add_connection-IsValid s sh t th ed v =
    elim (Bool-cases (sockets_fit (Assoc.get s ed.nodes) sh (Assoc.get t ed.nodes) th)) [
      | inr bad ↦ rw bad v
      | inl fit ↦ elim (Bool-cases (has_connection (generate_id s sh t th) ed.connections)) [
        | inl dup ↦ rw (fit, dup) v
        | inr new ↦ elim (Bool-cases (s == t)) [
          | inl same ↦ rw (fit, new, same) v
          | inr other ↦
              rw (fit, new, other)
                (emit-IsValid _ (record {
                  unique = v.unique;
                  keyed = v.keyed;
                  counted = v.counted;
                  linked =
                      All-append (Links ed.nodes) ed.connections (connect s sh t th ∷ []) v.linked (
                        record {
                          from_node = (ends fit).0;
                          to_node = (ends fit).1;
                          no_loop = other;
                          named = refl;
                        },
                        tt,
                      );
                  distinct =
                      rw (ids-append ed.connections (connect s sh t th ∷ []))
                        (NoRepeat-append _ _ v.distinct (mem-ids _ ed.connections ∙ new));
                }))
        ]
      ]
    ]
  where
    ends :
        sockets_fit (Assoc.get s ed.nodes) sh (Assoc.get t ed.nodes) th ≡ true
        → (Assoc.has s ed.nodes ≡ true) × (Assoc.has t ed.nodes ≡ true)
    ends fit = ground (arith, sockets_fit_ends (Assoc.get s ed.nodes) sh (Assoc.get t ed.nodes) th)

All-remove_first :
    (P : Connection → Type 0) (i : Text) (cs : List Connection)
    → All P cs
    → All P (remove_first i cs)
unfolding remove_first
All-remove_first P i [] h = tt
All-remove_first P i (c ∷ cs) h = ground (arith, All-remove_first P i cs)

mem-ids-remove_first :
    (i j : Text) (cs : List Connection)
    → mem j (ids cs) ≡ false
    → mem j (ids (remove_first i cs)) ≡ false
unfolding remove_first mem
mem-ids-remove_first i j [] h = h
mem-ids-remove_first i j (c ∷ cs) h = ground (arith, mem-ids-remove_first i j cs)

pub NoRepeat-remove_first :
    (i : Text) (cs : List Connection)
    → NoRepeat (ids cs)
    → NoRepeat (ids (remove_first i cs)) × (mem i (ids (remove_first i cs)) ≡ false)
unfolding remove_first mem
NoRepeat-remove_first i [] h = (tt, refl)
NoRepeat-remove_first i (c ∷ cs) h = ground (
  arith,
  NoRepeat-remove_first i cs,
  mem-ids-remove_first i c.id cs,
  ==_iff c.id i,
  ==_iff i c.id,
)

pub remove_connection-IsValid :
    (i : Text) (ed : Editor) → IsValid ed → IsValid (remove_connection i ed).0
unfolding remove_connection
remove_connection-IsValid i ed v = elim (Bool-cases (has_connection i ed.connections)) [
  | inr absent ↦ rw absent v
  | inl found ↦ rw found (
      emit-IsValid _ (record {
        unique = v.unique;
        keyed = v.keyed;
        counted = v.counted;
        linked = All-remove_first (Links ed.nodes) i ed.connections v.linked;
        distinct = (NoRepeat-remove_first i ed.connections v.distinct).0;
      }))
]
