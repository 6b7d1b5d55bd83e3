-- ===== src/Expression.antt =====
-- utils/expression_utils.js: the paths, templates and previews of expressions.
pub mod Path
pub mod Template
pub mod Evaluate
