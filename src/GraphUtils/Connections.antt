-- ===== src/GraphUtils/Connections.antt =====
-- graph_utils.js: which connections count, their keys, and the two adjacency maps.
pub mod Adjacency
use open_workflow_studio.Prelude.{
  ◌≡◌, Bool, true, false, ◌&&◌, Option, none, some, List, [], ◌∷◌, ◌++◌, filter, map,
}
use open_workflow_studio.Text.{Text, codes}
use open_workflow_studio.Assoc
use open_workflow_studio.Assoc.{Assoc}

-- A connection as the callers hand it over. A field that is absent is `none`.
pub record RawConnection : Type 0 where
  pub id : Option Text
  pub source : Option Text
  pub source_handle : Option Text
  pub source_socket : Option Text
  pub target : Option Text
  pub target_handle : Option Text
  pub target_socket : Option Text

-- A value of the callers: no array, or an array whose entries may be null.
abbrev pub RawConnections : Type 0
RawConnections = Option (List (Option RawConnection))

abbrev pub array : List RawConnection → RawConnections
array cs = some (map some cs)

-- The test of a string in a condition: absent and empty ones fail.
abbrev pub truthy : Option Text → Bool
truthy none = false
truthy (some []) = false
truthy (some (_ ∷ _)) = true

-- `String(x)`
abbrev pub to_string : Option Text → Text
to_string none = codes "undefined"
to_string (some t) = t

-- `x || y`
abbrev pub or_else : Option Text → Option Text → Option Text
or_else none y = y
or_else (some []) y = y
or_else (some (c ∷ t)) y = some (c ∷ t)

-- The test of the filter, for an entry that is not null.
abbrev pub is_linked : RawConnection → Bool
is_linked c = truthy c.source && truthy c.target

compact : List (Option RawConnection) → List RawConnection
compact [] = []
compact (none ∷ cs) = compact cs
compact (some c ∷ cs) = filter is_linked (c ∷ []) ++ compact cs

unfoldable pub normalize_connections : RawConnections → List RawConnection
unfolding compact
normalize_connections none = []
normalize_connections (some cs) = compact cs

abbrev pub source_id : RawConnection → Text
source_id c = to_string c.source

abbrev pub target_id : RawConnection → Text
target_id c = to_string c.target

-- `parts.join("=>")`
join_arrows : List Text → Text
join_arrows [] = []
join_arrows (t ∷ []) = t
join_arrows (t ∷ u ∷ ts) = t ++ codes "=>" ++ join_arrows (u ∷ ts)

endpoints_key : RawConnection → Text
unfolding join_arrows
endpoints_key c = join_arrows (
    source_id c
    ∷ to_string (or_else (or_else c.source_handle c.source_socket) (some []))
    ∷ target_id c
    ∷ to_string (or_else (or_else c.target_handle c.target_socket) (some []))
    ∷ [])

key_of : Option Text → Text → Text
key_of none k = k
key_of (some []) k = k
key_of (some (c ∷ t)) k = c ∷ t

unfoldable pub get_connection_key : RawConnection → Text
unfolding key_of endpoints_key
get_connection_key c = key_of c.id (endpoints_key c)

-- `adjacency.get(k) || []`
abbrev pub bucket {ℓ} : {A : Type ℓ} → Text → Assoc (List A) → List A
bucket k m = elim (Assoc.get k m) [ none ↦ [] | some xs ↦ xs ]

-- `if (!m.has(k)) m.set(k, []); m.get(k).push(x)`
unfoldable pub push_at {ℓ} : {A : Type ℓ} → Text → A → Assoc (List A) → Assoc (List A)
push_at k x m = Assoc.set k (bucket k m ++ x ∷ []) m

forward_loop : List RawConnection → Assoc (List RawConnection) → Assoc (List RawConnection)
forward_loop [] m = m
forward_loop (c ∷ cs) m = forward_loop cs (push_at (source_id c) c m)

unfoldable pub build_forward_adjacency : RawConnections → Assoc (List RawConnection)
unfolding forward_loop
build_forward_adjacency cs = forward_loop (normalize_connections cs) []

reverse_loop : List RawConnection → Assoc (List Text) → Assoc (List Text)
reverse_loop [] m = m
reverse_loop (c ∷ cs) m = reverse_loop cs (push_at (target_id c) (source_id c) m)

unfoldable pub build_reverse_adjacency : RawConnections → Assoc (List Text)
unfolding reverse_loop
build_reverse_adjacency cs = reverse_loop (normalize_connections cs) []
