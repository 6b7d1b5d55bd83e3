-- ===== src/Connection/Restore.antt =====
-- A connection that is written and read again.
use open_workflow_studio.Prelude.{◌≡◌, ◌≢◌, refl, some, List, [], ◌∷◌, map, All, ap₂}
use open_workflow_studio.Text.{Text}
use open_workflow_studio.Assoc.{IsUnique}
use open_workflow_studio.Value.Assign.{Begins, assign-Begins}
use open_workflow_studio.Connection.{
  Connection, connect, default_meta, restore_id, restore_meta, to_json, from_json,
}

-- A connection as the constructor and writes to its metadata make it.
pub record IsMade (c : Connection) : Type 0 where
  pub named : c.id ≢ []
  pub begins : Begins default_meta c.meta
  pub unique : IsUnique c.meta

restored_id : (i : Text) (c : Connection) → i ≢ [] → restore_id (some i) c ≡ record c { id = i }
unfolding restore_id
restored_id [] c h = absurd (h refl)
restored_id (x ∷ t) c h = refl

from_json-to_json_one : (c : Connection) → IsMade c → from_json (to_json c) ≡ c
unfolding restore_meta restore_id
from_json-to_json_one c h =
    rw (restored_id c.id (connect c.source c.source_handle c.target c.target_handle) h.named)
      (λ i. record c { meta = assign-Begins default_meta c.meta h.begins h.unique i })

pub from_json-to_json : (cs : List Connection) → All IsMade cs → map from_json (map to_json cs) ≡ cs
from_json-to_json [] h = refl
from_json-to_json (c ∷ cs) (h, hs) =
    ap₂ (λ d ds. d ∷ ds) (from_json-to_json_one c h) (from_json-to_json cs hs)
