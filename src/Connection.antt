-- ===== src/Connection.antt =====
-- core/connection.js: a link between two nodes.
pub mod Id
pub mod Restore
use open_workflow_studio.Prelude.{Bool, true, false, ◌||◌, Option, none, some, List, [], ◌∷◌, ◌++◌}
use open_workflow_studio.Text.{Text, codes, ◌==◌}
use open_workflow_studio.Assoc.{Assoc}
use open_workflow_studio.Value.{Value, bool, str, assign}

pub record Connection : Type 0 where
  pub id : Text
  pub source : Text
  pub source_handle : Text
  pub target : Text
  pub target_handle : Text
  pub meta : Assoc Value

unfoldable pub generate_id : Text → Text → Text → Text → Text
generate_id s sh t th = s ++ (codes ":" ++ (sh ++ (codes "=>" ++ (t ++ (codes ":" ++ th)))))

abbrev pub default_meta : Assoc Value
default_meta = (codes "label", str []) ∷ (codes "animated", bool false) ∷ []

-- The constructor.
abbrev pub connect : Text → Text → Text → Text → Connection
connect s sh t th = record {
  id = generate_id s sh t th;
  source = s;
  source_handle = sh;
  target = t;
  target_handle = th;
  meta = default_meta;
}

abbrev pub involves_node : Text → Connection → Bool
involves_node n c = c.source == n || c.target == n

-- A serialized connection; `id` and `meta` may be missing.
pub record ConnectionData : Type 0 where
  pub id : Option Text
  pub source : Text
  pub source_handle : Text
  pub target : Text
  pub target_handle : Text
  pub meta : Option (Assoc Value)

abbrev pub to_json : Connection → ConnectionData
to_json c = record {
  id = some c.id;
  source = c.source;
  source_handle = c.source_handle;
  target = c.target;
  target_handle = c.target_handle;
  meta = some c.meta;
}

-- `if (data.id) conn.id = data.id`
restore_id : Option Text → Connection → Connection
restore_id none c = c
restore_id (some []) c = c
restore_id (some (x ∷ t)) c = record c { id = x ∷ t }

restore_meta : Option (Assoc Value) → Connection → Connection
restore_meta none c = c
restore_meta (some m) c = record c { meta = assign c.meta m }

abbrev pub from_json : ConnectionData → Connection
unfolding restore_id restore_meta
from_json d =
    restore_meta d.meta
      (restore_id d.id (connect d.source d.source_handle d.target d.target_handle))
