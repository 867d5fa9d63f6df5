-- ===== src/Layout.antt =====
-- CTypeGen/__init__.py, `MemberType` and `StructType`: the fields of a structure or union.
-- `Bits` places one bitfield, `Fields` is the loop over the members with what follows it, `Offsets`
-- the table that `StructType.define` adds, and `Written` the class as a whole.
pub mod Bits
pub mod Members
pub mod Fields
pub mod Offsets
pub mod Written
pub mod Table
pub mod Named
pub mod Loop
pub mod Replay
pub mod Misplaced
pub mod Packing
pub mod Examples
