-- ===== src/Dwarf.antt =====
-- Debug information as CTypeGen/__init__.py reads it from the libCTypeGen extension: entries (DIEs)
-- with a tag and attributes, where `none` is python's None for an attribute that is absent. An entry
-- refers to another one by a handle, so that types may refer to one another in a cycle.
pub mod Shape
pub mod Chains
pub mod Sizes
pub mod Ensures
mod Examples
use ctypegen.Base.{ℕ, List, Bool, true, false, Option, Text, ◌≡◌, refl}

-- The `DW_TAG_` names that the program mentions.
pub data Tag : Type 0 where
  array_type base_type class_type compile_unit const_type enumeration_type enumerator : Tag
  formal_parameter gnu_template_parameter_pack imported_declaration inheritance member : Tag
  namespace partial_unit pointer_type ptr_to_member_type reference_type restrict_type : Tag
  rvalue_reference_type structure_type subprogram subrange_type subroutine_type : Tag
  template_type_param template_value_param typedef union_type unspecified_type : Tag
  variable volatile_type : Tag
  other : ℕ → Tag

-- `DW_AT_upper_bound` of an array dimension: compilers give -1 for a dimension of no elements.
pub data Bound : Type 0 where
  minus_one : Bound
  at : ℕ → Bound

pub record Die : Type 0 where
  pub tag : Tag
  pub name : Option Text
  pub fullname : List Text
  pub type : Option ℕ
  pub children : List ℕ
  pub byte_size : Option ℕ
  pub bit_size : Option ℕ
  pub bit_offset : Option ℕ
  pub data_bit_offset : Option ℕ
  pub data_member_location : Option ℕ
  pub count : Option ℕ
  pub upper_bound : Option Bound
  pub external : Bool
  pub declaration : Bool

-- The entries, by handle.
abbrev pub Dwarf : Type 0
Dwarf = ℕ → Die

-- Exceptions that the modelled code raises. The last two have no counterpart in it: `out_of_fuel`,
-- and `below_start` for a bitfield whose entry puts it before the start of its structure.
pub data Error : Type 0 where
  type_error attribute_error assertion_error other_exception out_of_fuel below_start : Error

-- What a call returns, or the exception that it raises.
pub data Result {ℓ} (A : Type ℓ) : Type ℓ where
  ok : A → Result A
  err : Error → Result A

-- One statement after another: an exception skips what follows.
infixl 5 ◌>>=◌
abbrev pub ◌>>=◌ {ℓ κ} : {A : Type ℓ} {B : Type κ} → Result A → (A → Result B) → Result B
err raised >>= next = err raised
ok value >>= next = next value

-- A number where the program computes with an attribute: None raises a TypeError there.
abbrev pub number : Option ℕ → Result ℕ
number (Option.some n) = ok n
number Option.none = err type_error

-- The set `qualifiers` of `deref`.
abbrev pub is_qualifier : Tag → Bool
is_qualifier const_type = true
is_qualifier volatile_type = true
is_qualifier typedef = true
is_qualifier restrict_type = true
is_qualifier _ = false

abbrev pub is_subrange : Tag → Bool
is_subrange subrange_type = true
is_subrange _ = false

abbrev pub is_pointer : Tag → Bool
is_pointer pointer_type = true
is_pointer _ = false

abbrev pub is_array : Tag → Bool
is_array array_type = true
is_array _ = false

abbrev pub is_union : Tag → Bool
is_union union_type = true
is_union _ = false

abbrev pub is_inheritance : Tag → Bool
is_inheritance inheritance = true
is_inheritance _ = false
