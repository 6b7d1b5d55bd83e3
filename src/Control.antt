-- ===== src/Control.antt =====
-- core/control.js: the configuration elements of a node, as far as nodes and the adapter use them.
pub mod Pairs
use open_workflow_studio.Prelude.{Bool, true, false, Option, none, some, List, [], ◌∷◌}
use open_workflow_studio.Text.{Text}
use open_workflow_studio.Value.{Value, undefined}

pub record Control : Type 0 where
  pub key : Text
  pub type : Text
  pub label : Text
  pub value : Value

unfoldable pub set_value : Value → Control → Control
set_value v c = record c { value = v }

unfoldable pub get_value : Control → Value
get_value c = c.value
