-- ===== src/Editor/Valid.antt =====
-- core/editor.js: the editor's invariant. It is stated for the operations that edit the graph;
-- loading checks neither connections nor ids.
use open_workflow_studio.Prelude.{
  ℕ, ◌≤◌, ◌≡◌, refl, true, false, some, List, [], ◌∷◌, ◌∙◌, sym, subst, All, arith, Bool-cases, inl,
  inr,
}
use open_workflow_studio.Text.{Text, ◌==◌, ==_iff, NoRepeat}
use open_workflow_studio.Text.Decimal.{parse_digits}
use open_workflow_studio.Assoc
use open_workflow_studio.Assoc.{Assoc, IsUnique}
use open_workflow_studio.Assoc.Laws.{get-set, set-IsUnique}
use open_workflow_studio.Connection.{Connection, generate_id}
use open_workflow_studio.Node.{BaseNode, NodeClass}
use open_workflow_studio.Editor.{Editor, Event, new_editor, emit, emit_all, put_node}

-- A connection is as `addConnection` makes it, between two nodes of the editor.
pub record Links (nodes : Assoc BaseNode) (c : Connection) : Type 0 where
  pub from_node : Assoc.has c.source nodes ≡ true
  pub to_node : Assoc.has c.target nodes ≡ true
  pub no_loop : (c.source == c.target) ≡ false
  pub named : c.id ≡ generate_id c.source c.source_handle c.target c.target_handle

abbrev pub ids : List Connection → List Text
ids [] = []
ids (c ∷ cs) = c.id ∷ ids cs

-- The number in the id is not above the counter.
abbrev pub Counted : ℕ → Text → Type 0
Counted n k = (m : ℕ) → parse_digits k ≡ some m → m ≤ n

pub record IsValid (ed : Editor) : Type 0 where
  pub unique : IsUnique ed.nodes
  pub keyed : (k : Text) (n : BaseNode) → Assoc.get k ed.nodes ≡ some n → n.id ≡ some k
  pub counted : (k : Text) → Assoc.has k ed.nodes ≡ true → Counted ed.id_counter k
  pub linked : All (Links ed.nodes) ed.connections
  pub distinct : NoRepeat (ids ed.connections)

pub Links-monotone :
    (m n : Assoc BaseNode) (cs : List Connection)
    → ((k : Text) → Assoc.has k m ≡ true → Assoc.has k n ≡ true)
    → All (Links m) cs
    → All (Links n) cs
Links-monotone m n [] f h = tt
Links-monotone m n (c ∷ cs) f (l, h) = (
  record {
    from_node = f c.source l.from_node;
    to_node = f c.target l.to_node;
    no_loop = l.no_loop;
    named = l.named;
  },
  Links-monotone m n cs f h,
)

pub emit-IsValid : (e : Event) {ed : Editor} → IsValid ed → IsValid (emit e ed)
unfolding emit
emit-IsValid e v = record {
  unique = v.unique;
  keyed = v.keyed;
  counted = v.counted;
  linked = v.linked;
  distinct = v.distinct;
}

pub emit_all-IsValid :
    (e : Event) (cs : List Connection) (ed : Editor) → IsValid ed → IsValid (emit_all e cs ed)
unfolding emit_all
emit_all-IsValid e [] ed v = v
emit_all-IsValid e (c ∷ cs) ed v = emit_all-IsValid e cs (emit e ed) (emit-IsValid e v)

pub new_editor-IsValid : (registry : Assoc NodeClass) → IsValid (new_editor registry)
unfolding Assoc.get
new_editor-IsValid registry = record {
  unique = tt;
  keyed = λ k n e. cc;
  counted = λ k e. cc;
  linked = tt;
  distinct = tt;
}

-- Placing a node under its id, where the counter is not below the id's number.
pub put_node-IsValid :
    (k : Text) (n : BaseNode) (ed : Editor)
    → n.id ≡ some k
    → Counted ed.id_counter k
    → IsValid ed
    → IsValid (put_node k n ed)
put_node-IsValid k n ed e c v = record {
  unique = set-IsUnique k n ed.nodes v.unique;
  keyed = λ j m g. ground (arith, get-set j k n ed.nodes, v.keyed j m, ==_iff j k);
  counted = λ j g. elim (Bool-cases (j == k)) [
    | inl q ↦ subst (Counted ed.id_counter) (sym ((==_iff j k).0 q)) c
    | inr q ↦ v.counted j (ground (arith, get-set j k n ed.nodes))
  ];
  linked =
      Links-monotone ed.nodes _ ed.connections (λ j g. ground (arith, get-set j k n ed.nodes))
        v.linked;
  distinct = v.distinct;
}

-- A node that keeps its id may change in all else.
pub update_node-IsValid :
    (k : Text) (old new : BaseNode) (ed : Editor)
    → Assoc.get k ed.nodes ≡ some old
    → new.id ≡ old.id
    → IsValid ed
    → IsValid (put_node k new ed)
update_node-IsValid k old new ed g e v =
    put_node-IsValid k new ed (e ∙ v.keyed k old g) (v.counted k (rw g refl)) v
