-- ===== src/Socket.antt =====
-- core/socket.js: typed connection points.
use open_workflow_studio.Prelude.{
  Bool, true, false, Option, none, some, List, [], ◌∷◌, if◌then◌else◌,
}
use open_workflow_studio.Text.{Text, codes, ◌==◌, mem}

pub record Socket : Type 0 where
  pub name : Text
  pub compatible_with : List Text

-- The absent socket stands for a missing argument.
unfoldable pub is_compatible : Socket → Option Socket → Bool
is_compatible s none = false
is_compatible s (some other) =
    if s.name == other.name then true else mem other.name s.compatible_with

abbrev pub data_socket : Socket
data_socket = record { name = codes "data"; compatible_with = [] }

abbrev pub error_socket : Socket
error_socket = record { name = codes "error"; compatible_with = codes "data" ∷ [] }

abbrev pub trigger_socket : Socket
trigger_socket = record { name = codes "trigger"; compatible_with = [] }
