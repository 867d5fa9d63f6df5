-- ===== src/Macro.antt =====
-- CTypeGen/expression.py and `MacroCallback` of CTypeGen/__init__.py: macros of the C preprocessor as
-- python definitions. `Clean` rewrites a macro's value, `Callback` follows the files and definitions.
pub mod Clean
pub mod Callback
pub mod Copy
pub mod Scope
pub mod Returns
pub mod Untouched
mod Examples
