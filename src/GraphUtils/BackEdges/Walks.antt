-- ===== src/GraphUtils/BackEdges/Walks.antt =====
-- What it means for a node to lead to another along connections.
use open_workflow_studio.Prelude.{◌≡◌, ◌⊎◌, inl, inr, List, In, refl}
use open_workflow_studio.Text.{Text}
use open_workflow_studio.GraphUtils.Connections.{RawConnection, source_id, target_id}

-- A walk of one connection or more.
pub data Leads (cs : List RawConnection) (u : Text) : Text → Type 0 where
  edge : {v : Text} (c : RawConnection) → In c cs → source_id c ≡ u → target_id c ≡ v → Leads cs u v
  step :
      {v w : Text}
      → Leads cs u v
      → (c : RawConnection) → In c cs
      → source_id c ≡ v
      → target_id c ≡ w
      → Leads cs u w

abbrev pub IsAcyclic : List RawConnection → Type 0
IsAcyclic cs = (u : Text) → Leads cs u u → ⊥

-- The connection closes a cycle: it is a loop, or its target leads to its source.
abbrev pub ClosesCycle : List RawConnection → RawConnection → Type 0
ClosesCycle cs c = (target_id c ≡ source_id c) ⊎ Leads cs (target_id c) (source_id c)

pub Leads-monotone :
    {cs ds : List RawConnection} {u v : Text}
    → ((c : RawConnection) → In c cs → In c ds)
    → Leads cs u v
    → Leads ds u v
Leads-monotone f (edge c i p q) = edge c (f c i) p q
Leads-monotone f (step w c i p q) = step (Leads-monotone f w) c (f c i) p q

pub Leads-cons :
    {cs : List RawConnection} {u v w : Text} (c : RawConnection)
    → In c cs
    → source_id c ≡ u
    → target_id c ≡ v
    → Leads cs v w
    → Leads cs u w
Leads-cons c i p q (edge d j r s) = step (edge c i p q) d j r s
Leads-cons c i p q (step l d j r s) = step (Leads-cons c i p q l) d j r s

-- In a graph without cycles no connection closes one.
pub ClosesCycle-not-IsAcyclic :
    (cs : List RawConnection) (c : RawConnection) → IsAcyclic cs → In c cs → ClosesCycle cs c → ⊥
ClosesCycle-not-IsAcyclic cs c a i (inl e) = a (source_id c) (edge c i refl e)
ClosesCycle-not-IsAcyclic cs c a i (inr l) = a (source_id c) (Leads-cons c i refl refl l)
