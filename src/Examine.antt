-- ===== src/Examine.antt =====
-- CTypeGen/__init__.py: how `TypeResolver` finds what to generate: `dieToType`, `examineDIE` and
-- `enumerateDIEs` over the entries of a library, with the filters that `__init__` makes of what the user
-- asks for.
pub mod Keys
pub mod Find
pub mod Visit
pub mod Requests
pub mod Asked
pub mod Scopes
pub mod Pruned
pub mod Search
pub mod Kept
pub mod Entries
pub mod Sound
pub mod Complete
mod Examples
