-- ===== src/NodeRegistry.antt =====
-- utils/node_registry.js: the types of nodes that were used last. The registry of types is the
-- host's, a parameter here.
use open_workflow_studio.Prelude.{
  ℕ, zero, suc, ◌≤◌, ◌≡◌, refl, Bool, false, not, Option, none, some, List, [], ◌∷◌, arith, filter,
  take, length, length-filter, get_elem?,
}
use open_workflow_studio.Text.{Text, ◌==◌, ==_iff, mem, NoRepeat}

abbrev pub max_recent : ℕ
max_recent = 10

unfoldable pub track_node_usage : Text → List Text → List Text
track_node_usage node_key recent =
    take max_recent (node_key ∷ filter (λ k. not (k == node_key)) recent)

-- An argument that is no list is as the empty one.
unfoldable pub prune_recent_nodes : List Text → List Text → List Text
prune_recent_nodes [] recent = []
prune_recent_nodes (k ∷ ks) recent = filter (λ j. mem j (k ∷ ks)) recent

-- `.map(key => getNodeType(key)).filter(Boolean)`
abbrev pub known {ℓ} : {T : Type ℓ} → (Text → Option T) → List Text → List T
known get_node_type [] = []
known get_node_type (k ∷ ks) = elim (get_node_type k) [
  | none ↦ known get_node_type ks
  | some t ↦ t ∷ known get_node_type ks
]

abbrev pub get_recent_nodes {ℓ} : {T : Type ℓ} → (Text → Option T) → ℕ → List Text → List T
get_recent_nodes get_node_type limit recent = known get_node_type (take limit recent)

-- A call that changes the list; `clearRecentNodes` empties it.
pub data RecentCall : Type 0 where
  track : Text → RecentCall
  prune : List Text → RecentCall
  clear : RecentCall

abbrev pub perform : RecentCall → List Text → List Text
perform (track k) recent = track_node_usage k recent
perform (prune ks) recent = prune_recent_nodes ks recent
perform clear recent = []

abbrev pub perform_all : List RecentCall → List Text → List Text
perform_all [] recent = recent
perform_all (c ∷ cs) recent = perform_all cs (perform c recent)

abbrev IsRecent : List Text → Type 0
IsRecent recent = NoRepeat recent × (length recent ≤ max_recent)

mem-filter :
    (p : Text → Bool) (k : Text) (ks : List Text) → mem k ks ≡ false → mem k (filter p ks) ≡ false
unfolding mem
mem-filter p k [] h = refl
mem-filter p k (j ∷ ks) h = ground (arith, mem-filter p k ks)

filter-NoRepeat : (p : Text → Bool) (ks : List Text) → NoRepeat ks → NoRepeat (filter p ks)
filter-NoRepeat p [] h = tt
filter-NoRepeat p (k ∷ ks) h = ground (arith, filter-NoRepeat p ks, mem-filter p k ks)

mem-take : (n : ℕ) (k : Text) (ks : List Text) → mem k ks ≡ false → mem k (take n ks) ≡ false
unfolding mem
mem-take zero k ks h = refl
mem-take (suc n) k [] h = refl
mem-take (suc n) k (j ∷ ks) h = ground (arith, mem-take n k ks)

take-NoRepeat : (n : ℕ) (ks : List Text) → NoRepeat ks → NoRepeat (take n ks)
take-NoRepeat zero ks h = tt
take-NoRepeat (suc n) [] h = tt
take-NoRepeat (suc n) (k ∷ ks) (f, h) = (mem-take n k ks f, take-NoRepeat n ks h)

length-take : (n : ℕ) (ks : List Text) → length (take n ks) ≤ n
length-take zero ks = omega arith
length-take (suc n) [] = omega arith
length-take (suc n) (k ∷ ks) = omega (arith, length-take n ks)

mem-other : (k : Text) (ks : List Text) → mem k (filter (λ j. not (j == k)) ks) ≡ false
unfolding mem
mem-other k [] = refl
mem-other k (j ∷ ks) = ground (arith, mem-other k ks, ==_iff k j, ==_iff j k)

perform-IsRecent :
    (c : RecentCall) (recent : List Text) → IsRecent recent → IsRecent (perform c recent)
unfolding track_node_usage prune_recent_nodes
perform-IsRecent (track k) recent (h, l) =
    let ks = filter (λ j. not (j == k)) recent in
    (
      take-NoRepeat max_recent (k ∷ ks)
          (mem-other k recent, filter-NoRepeat (λ j. not (j == k)) recent h),
      length-take max_recent (k ∷ ks),
    )
perform-IsRecent (prune []) recent (h, l) = (tt, omega arith)
perform-IsRecent (prune (k ∷ ks)) recent (h, l) = (
  filter-NoRepeat (λ j. mem j (k ∷ ks)) recent h,
  omega (arith, l, length-filter (λ j. mem j (k ∷ ks)) recent),
)
perform-IsRecent clear recent h = (tt, omega arith)

perform_all-from :
    (cs : List RecentCall) (recent : List Text) → IsRecent recent → IsRecent (perform_all cs recent)
perform_all-from [] recent h = h
perform_all-from (c ∷ cs) recent h =
    perform_all-from cs (perform c recent) (perform-IsRecent c recent h)

-- After any calls, from the empty list on, the types that were used last are at most ten, none of
-- them twice, and the one that is used next comes first.
pub perform_all-IsRecent :
    (cs : List RecentCall) (next : Text)
    → NoRepeat (perform_all cs [])
      × (length (perform_all cs []) ≤ 10)
      × (get_elem? (track_node_usage next (perform_all cs [])) 0 ≡ some next)
unfolding track_node_usage
perform_all-IsRecent cs next = let (h, l) = perform_all-from cs [] (tt, omega arith) in (h, l, refl)
