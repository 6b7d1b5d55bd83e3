-- ===== src/ExecutionContext/Serialize.antt =====
-- core/context.js: copies of the variables, serialization, and clearing.
use open_workflow_studio.Prelude.{Option, none, some, []}
use open_workflow_studio.Text.{Text}
use open_workflow_studio.Value.{Fields, end, entries, object}
use open_workflow_studio.Value.Json.{json_fields}
use open_workflow_studio.ExecutionContext.{ExecutionContext}

abbrev pub get_all_variables : ExecutionContext → Fields
get_all_variables c = json_fields c.vars

-- The serialized context; the parts may be missing where it is loaded.
pub record ContextData : Type 0 where
  pub vars : Option Fields
  pub node_outputs : Option Fields
  pub current_node_id : Option Text

abbrev pub to_json : ExecutionContext → ContextData
to_json c = record {
  vars = some (json_fields c.vars);
  node_outputs = some (json_fields (object c.node_outputs));
  current_node_id = c.current_node_id;
}

abbrev pub fields_or_none : Option Fields → Fields
fields_or_none none = end
fields_or_none (some f) = f

abbrev pub id_or_none : Option Text → Option Text
id_or_none (some []) = none
id_or_none o = o

abbrev pub from_json : ContextData → ExecutionContext → ExecutionContext
from_json d c = record c {
  vars = fields_or_none d.vars;
  node_outputs = entries (fields_or_none d.node_outputs);
  current_node_id = id_or_none d.current_node_id;
  loop_stack = [];
}

-- The contexts of the nodes and the current input are left.
abbrev pub clear : ExecutionContext → ExecutionContext
clear c = record c { vars = end; node_outputs = []; current_node_id = none; loop_stack = [] }
