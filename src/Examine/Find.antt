-- ===== src/Examine/Find.antt =====
-- CTypeGen/__init__.py: `TypeResolver.dieToType`, which keeps one type object for each full name and tag.
use ctypegen.Base.{
  ℕ, zero, suc, ◌+◌, List, [], ◌∷◌, Bool, true, false, ◌&&◌, Option, none, some, Text, text_eq,
  if◌then◌else◌, is_some,
}
use ctypegen.Dwarf.{
  Tag, array_type, base_type, class_type, const_type, enumeration_type, pointer_type,
  ptr_to_member_type, reference_type, restrict_type, rvalue_reference_type, structure_type,
  subprogram, subroutine_type, typedef, union_type, unspecified_type, volatile_type, Dwarf, Result,
  ok, err, attribute_error, out_of_fuel, ◌>>=◌,
}
use ctypegen.Names.{as_python_text, flat_name}
use ctypegen.Examine.Keys.{Name, find_name, put_name, find_tag, put_tag}

-- The classes of types in `typeFromTag`.
pub data Kind : Type 0 where
  typedef_kind pointer_kind function_kind struct_kind union_kind primitive_kind array_kind : Kind
  const_kind enum_kind volatile_kind function_def_kind restrict_kind : Kind

-- `typeFromTag`
unfoldable pub type_from_tag : Tag → Option Kind
type_from_tag typedef = some typedef_kind
type_from_tag pointer_type = some pointer_kind
type_from_tag reference_type = some pointer_kind
type_from_tag rvalue_reference_type = some pointer_kind
type_from_tag subroutine_type = some function_kind
type_from_tag structure_type = some struct_kind
type_from_tag class_type = some struct_kind
type_from_tag union_type = some union_kind
type_from_tag base_type = some primitive_kind
type_from_tag array_type = some array_kind
type_from_tag const_type = some const_kind
type_from_tag enumeration_type = some enum_kind
type_from_tag volatile_type = some volatile_kind
type_from_tag subprogram = some function_def_kind
type_from_tag restrict_type = some restrict_kind
type_from_tag unspecified_type = some pointer_kind
type_from_tag ptr_to_member_type = some pointer_kind
type_from_tag _ = none

-- A type object: its entry with its class, or an `ExternalType` with its entry and module.
pub data TypeEntry : Type 0 where
  local : ℕ → Kind → TypeEntry
  external : ℕ → Text → TypeEntry

-- What `dieToType` returns: a new `VoidType`, or the object that is kept for a name and a tag.
pub data TypeRef : Type 0 where
  void : TypeRef
  kept : Name → Tag → TypeRef

-- An attribute of an imported module: its `__module__`, and `_ctypegen_have_definition`.
pub record Attribute : Type 0 where
  pub module_name : Option Text
  pub have_definition : Bool

pub record Module : Type 0 where
  pub name : Text
  pub attribute : Text → Option Attribute

-- What is outside of the resolver: `findDefinition` of the libraries, in their order, the modules of
-- `existingTypes`, the keywords of python, and the producer of a unit.
pub record World : Type 0 where
  pub find_definition : ℕ → Option ℕ
  pub existing : List Module
  pub iskeyword : Text → Bool
  pub producer : ℕ → Option Text

-- `types`, by full name and then by tag, and the number of errors.
pub record Tables : Type 0 where
  pub types : List (Name × List (Tag × TypeEntry))
  pub errors : ℕ

abbrev pub row_of : Option (List (Tag × TypeEntry)) → List (Tag × TypeEntry)
row_of none = []
row_of (some row) = row

unfoldable pub by_tag : Name → List (Name × List (Tag × TypeEntry)) → List (Tag × TypeEntry)
by_tag n types = row_of (find_name n types)

unfoldable pub find_type : Name → Tag → Tables → Option TypeEntry
find_type n t s = find_tag t (by_tag n s.types)

-- `if name not in self.types: self.types[ name ] = {}`
unfoldable pub with_name : Name → Tables → Tables
with_name n s =
    if is_some (find_name n s.types) then s else record s { types = put_name n [] s.types }

-- `bytag[ tag ] = newType`
unfoldable pub register : Name → Tag → TypeEntry → Tables → Tables
register n t e s = record s { types = put_name n (put_tag t e (by_tag n s.types)) s.types }

unfoldable pub is_from : Text → Option Attribute → Bool
is_from name none = false
is_from name (some a) = elim (a.module_name) [
  | none ↦ false
  | some m ↦ text_eq m name && a.have_definition
]

-- The first of the modules that has the definition of an identifier.
unfoldable pub find_existing : Text → List Module → Option Text
find_existing ident [] = none
find_existing ident (m ∷ ms) =
    if is_from m.name (m.attribute ident) then some m.name else find_existing ident ms

module _ (d : Dwarf) (w : World) where
  -- `definition`: an entry that is a declaration is looked up, with an error where this fails.
  unfoldable pub definition : ℕ → Tables → ℕ × Tables
  definition h s =
      let looked_up : ℕ × Tables = elim (w.find_definition h) [
        | some k ↦ (k, s)
        | none ↦ (h, record s { errors = s.errors + 1 })
      ] in
      if (d h).declaration then looked_up else (h, s)

  -- The loop that goes on to the type of an entry whose tag has no class.
  unfoldable pub skip_next :
      (ℕ → Result (ℕ × Kind)) → ℕ → Option Kind → Option ℕ → Result (ℕ × Kind)
  skip_next next h (some kind) type = ok (h, kind)
  skip_next next h none none = err attribute_error
  skip_next next h none (some k) = next k

  unfoldable pub skip_to_type : ℕ → ℕ → Result (ℕ × Kind)
  skip_to_type zero h = err out_of_fuel
  skip_to_type (suc f) h = skip_next (skip_to_type f) h (type_from_tag (d h).tag) (d h).type

  -- The name is taken from an imported module, for an entry with a name.
  unfoldable pub imported : ℕ → Option Text → Option Text
  imported h none = none
  imported h (some name) =
      find_existing (as_python_text w.iskeyword (flat_name (d h) true)) w.existing

  unfoldable pub call_base :
      (ℕ → Tables → Result (TypeRef × Tables)) → Option ℕ → Tables → Result Tables
  call_base call none s = ok s
  call_base call (some h) s = do (t, s') ← call h s; ok s'

  -- What the constructor of a class does to the tables: `Typedef` looks at its base type, `ArrayType` at
  -- its definition.
  unfoldable pub construct :
      (ℕ → Tables → Result (TypeRef × Tables)) → ℕ → Kind → Tables → Result Tables
  construct call h typedef_kind s = let (k, s') = definition h s in call_base call (d k).type s'
  construct call h array_kind s = ok (definition h s).1
  construct call h kind s = ok s

  -- A type for an entry that has none yet, registered under the name and the tag of the entry.
  unfoldable pub new_type :
      (ℕ → Tables → Result (TypeRef × Tables))
      → ℕ
      → ℕ
      → Option Text
      → Tables
      → Result (TypeRef × Tables)
  new_type call f h (some module_name) s =
      ok (
        kept (d h).fullname (d h).tag,
        register (d h).fullname (d h).tag (external h module_name) s,
      )
  new_type call f h none s = do
    (k, kind) ← skip_to_type f h
    s' ← construct call k kind s
    ok (kept (d h).fullname (d h).tag, register (d h).fullname (d h).tag (local k kind) s')

  unfoldable pub known_or_new :
      (ℕ → Tables → Result (TypeRef × Tables))
      → ℕ
      → ℕ
      → Option TypeEntry
      → Tables
      → Result (TypeRef × Tables)
  known_or_new call f h (some e) s = ok (kept (d h).fullname (d h).tag, s)
  known_or_new call f h none s =
      new_type call f h (imported h (d h).name) (with_name (d h).fullname s)

  -- `dieToType` for an entry.
  unfoldable pub type_of_die : ℕ → ℕ → Tables → Result (TypeRef × Tables)
  type_of_die zero h s = err out_of_fuel
  type_of_die (suc f) h s =
      known_or_new (type_of_die f) f h (find_type (d h).fullname (d h).tag s) s

  -- `dieToType`
  unfoldable pub die_to_type : ℕ → Option ℕ → Tables → Result (TypeRef × Tables)
  die_to_type f none s = ok (void, s)
  die_to_type f (some h) s = type_of_die f h s
