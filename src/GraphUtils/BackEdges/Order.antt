-- ===== src/GraphUtils/BackEdges/Order.antt =====
-- The order in which the search finishes the nodes, last one first: a connection that is not marked
-- leads from a node to one that was finished before.
use open_workflow_studio.Prelude.{
  ℕ, suc, ◌≤◌, ◌<◌, ◌≡◌, ◌⊎◌, inl, inr, true, false, List, [], ◌∷◌, arith, In, if◌then◌else◌,
  length, Bool-cases,
}
use open_workflow_studio.Text.{Text, ◌==◌, ==_iff, mem}
use open_workflow_studio.GraphUtils.Connections.{
  RawConnection, source_id, target_id, get_connection_key,
}

-- `ks` are the marked keys, and `o` the finished nodes.
abbrev pub IsOrder : List RawConnection → List Text → List Text → Type 0
IsOrder cs ks [] = Unit
IsOrder cs ks (x ∷ o) =
    ((c : RawConnection)
      → In c cs
      → source_id c ≡ x
      → (mem (get_connection_key c) ks ≡ true) ⊎ (mem (target_id c) o ≡ true))
    × IsOrder cs ks o

pub IsOrder-monotone :
    (cs : List RawConnection) (ks ls o : List Text)
    → ((k : Text) → mem k ks ≡ true → mem k ls ≡ true)
    → IsOrder cs ks o
    → IsOrder cs ls o
IsOrder-monotone cs ks ls [] f h = tt
IsOrder-monotone cs ks ls (x ∷ o) f h = (
  λ c i e. elim (h.0 c i e) [ inl k ↦ inl (f _ k) | inr t ↦ inr t ],
  IsOrder-monotone cs ks ls o f h.1,
)

-- How long before the others a node was finished: by its earliest entry.
pub rank : Text → List Text → ℕ
rank x [] = 0
rank x (y ∷ o) = let r = rank x o in if mem x o then r else if x == y then suc (length o) else 0

rank-le : (x : Text) (o : List Text) → rank x o ≤ length o
unfolding rank
rank-le x [] = omega arith
rank-le x (y ∷ o) = ground (arith, rank-le x o)

-- Along a connection that is not marked the rank falls.
pub rank-lt :
    (cs : List RawConnection) (ks o : List Text) (c : RawConnection)
    → IsOrder cs ks o
    → In c cs
    → mem (source_id c) o ≡ true
    → mem (get_connection_key c) ks ≡ false
    → (mem (target_id c) o ≡ true) × (rank (target_id c) o < rank (source_id c) o)
unfolding rank mem
rank-lt cs ks [] c h i m k = cc
rank-lt cs ks (x ∷ o) c h i m k = elim (Bool-cases (mem (source_id c) o)) [
  | inl old ↦ ground (arith, rank-lt cs ks o c h.1 i old k)
  | inr new ↦
      let here : source_id c ≡ x = ground (arith, ==_iff (source_id c) x) in
      ground (arith, h.0 c i here, rank-le (target_id c) o)
]
