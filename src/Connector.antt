-- ===== src/Connector.antt =====
-- utils/connector_request_config.js: what of a request's configuration is saved. Blank entries are
-- deleted.
pub mod Cleared
pub mod Blank
use open_workflow_studio.Prelude.{
  Bool, true, false, not, ◌&&◌, ◌||◌, Option, none, some, List, [], ◌∷◌, zero, leb, ◌+◌, map,
  if◌then◌else◌,
}
use open_workflow_studio.Prelude.Int.{ℤ, pos}
use open_workflow_studio.Text.{Text, codes, ◌==◌}
use open_workflow_studio.Text.Scan.{trim}
use open_workflow_studio.Assoc
use open_workflow_studio.Assoc.{Assoc}
use open_workflow_studio.Value.{
  Value, undefined, null, bool, num, str, arr, obj, Items, nil, cons, prop, truthy, or_undefined,
}
use open_workflow_studio.Expression.Evaluate.{to_text}
use open_workflow_studio.Node.{NodeData}
use open_workflow_studio.Editor.Load.{WorkflowData}

-- `isPlainObject`, as a test.
abbrev pub is_plain_object : Value → Bool
is_plain_object (obj f) = true
is_plain_object _ = false

-- `toLowerCase`, on the letters that the compared words are made of.
abbrev pub to_lower_case : Text → Text
to_lower_case [] = []
to_lower_case (c ∷ s) = (if leb b'A' c && leb c b'Z' then c + 32 else c) ∷ to_lower_case s

-- `typeof v === "string" ? v.trim() : ""`
abbrev pub trimmed_text : Value → Text
trimmed_text (str s) = trim s
trimmed_text _ = []

-- `v !== false`
abbrev pub is_not_false : Value → Bool
is_not_false (bool b) = b
is_not_false _ = true

abbrev pub is_empty : Text → Bool
is_empty [] = true
is_empty (_ ∷ _) = false

abbrev pub is_enabled_row : Value → Bool
is_enabled_row row =
    is_plain_object row
    && not (is_empty (trimmed_text (prop (codes "key") row)))
    && is_not_false (prop (codes "enabled") row)

abbrev pub some_enabled : Items → Bool
some_enabled nil = false
some_enabled (cons row rows) = is_enabled_row row || some_enabled rows

unfoldable pub has_enabled_key_value_entries : Value → Bool
has_enabled_key_value_entries (arr rows) = some_enabled rows
has_enabled_key_value_entries _ = false

-- `typeof v === "string" ? v.trim().toLowerCase() : "none"`
abbrev pub content_type_of : Value → Text
content_type_of (str s) = to_lower_case (trim s)
content_type_of _ = codes "none"

abbrev pub is_blank_content : Text → Value → Bool
is_blank_content content_type body =
    if is_empty content_type || content_type == codes "none"
    then true
    else if content_type == codes "form_data" || content_type == codes "urlencoded"
    then not (has_enabled_key_value_entries (prop (codes "form_data") body))
    else false

unfoldable pub is_blank_body_config : Value → Bool
is_blank_body_config body =
    if is_plain_object body
    then is_blank_content (content_type_of (prop (codes "content_type") body)) body
    else true

-- `v === undefined || v === null || v === "" || v === 0`
unfoldable pub is_no_relation : Value → Bool
is_no_relation undefined = true
is_no_relation null = true
is_no_relation (str s) = is_empty s
is_no_relation (num (pos zero)) = true
is_no_relation _ = false

-- `!String(v || "").trim()`
unfoldable pub is_blank_text : Value → Bool
is_blank_text v = if truthy v then is_empty (trim (to_text v)) else true

unfoldable pub is_no_timeout : Value → Bool
is_no_timeout undefined = true
is_no_timeout null = true
is_no_timeout (str s) = is_empty s
is_no_timeout _ = false

unfoldable pub lacks_entries : Value → Bool
lacks_entries v = not (has_enabled_key_value_entries v)

-- `if (test(config[key])) delete config[key]`
unfoldable pub drop_if : (Value → Bool) → Text → Assoc Value → Assoc Value
drop_if test key config =
    if test (or_undefined (Assoc.get key config)) then Assoc.delete key config else config

-- The deletions, in the order of the source: the keys with their tests.
abbrev pub rules : List (Text × (Value → Bool))
rules =
    (codes "connector_id", is_no_relation)
    ∷ (codes "workspace_id", is_no_relation)
    ∷ (codes "endpoint_id", is_no_relation)
    ∷ (codes "auth_profile_id", is_no_relation)
    ∷ (codes "url", is_blank_text)
    ∷ (codes "method", is_blank_text)
    ∷ (codes "headers", lacks_entries)
    ∷ (codes "query_params", lacks_entries)
    ∷ (codes "body_config", is_blank_body_config)
    ∷ (codes "timeout", is_no_timeout)
    ∷ []

abbrev pub drop_all : List (Text × (Value → Bool)) → Assoc Value → Assoc Value
drop_all [] config = config
drop_all ((key, test) ∷ rs) config = drop_all rs (drop_if test key config)

-- `sanitizeConnectorRequestConfig`, of a configuration that is an object.
pub sanitize_connector_request_config : Assoc Value → Assoc Value
sanitize_connector_request_config raw = drop_all rules raw

-- A node without a configuration gets an empty one.
abbrev pub sanitize_node : NodeData → NodeData
sanitize_node n =
    if n.type == codes "connector_request"
    then record n {
      config = some (elim n.config [ none ↦ [] | some c ↦ sanitize_connector_request_config c ]);
    }
    else n

-- A snapshot without a list of nodes is left as it is.
pub sanitize_connector_request_snapshot : WorkflowData → WorkflowData
sanitize_connector_request_snapshot d = elim d.nodes [
  | none ↦ d
  | some ns ↦ record d { nodes = some (map sanitize_node ns) }
]
