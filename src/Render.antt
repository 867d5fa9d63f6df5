-- ===== src/Render.antt =====
-- CTypeGen/__init__.py: `ctype`, `size` and `alignment` of the classes of types.
pub mod Sizes
pub mod Alignments
pub mod Aliases
mod Examples
use ctypegen.Base.{
  ℕ, zero, suc, ◌*◌, List, [], ◌∷◌, ◌++◌, Bool, true, false, ◌||◌, Option, none, some, Text, String,
  codes, decimal, text_eq, if◌then◌else◌,
}
use mathlib.Core.List.{foldl}
use ctypegen.Dwarf.{
  Dwarf, Result, ok, err, type_error, attribute_error, other_exception, out_of_fuel, ◌>>=◌, Tag,
  subroutine_type, formal_parameter,
}
use ctypegen.Dwarf.Shape.{is_void, get_array_dimensions}
use ctypegen.Examine.Find.{
  Kind, typedef_kind, pointer_kind, function_kind, struct_kind, union_kind, primitive_kind,
  array_kind, const_kind, enum_kind, volatile_kind, function_def_kind, restrict_kind,
}
use ctypegen.Primitive.{Entry, Alignment, base_type_alignment, primitive_ctype}

-- The type object that `dieToType` gives for an entry: its `die`, the entry of its `definition()`, its
-- class, and its `pyName()`, which for a type of another module has the module in front.
pub record Object : Type 0 where
  pub die : ℕ
  pub definition : ℕ
  pub kind : Kind
  pub is_external : Bool
  pub py_name : Text

-- What the methods look at: the entries, the type objects, the entries of base types with their encodings,
-- the size of a pointer, and the `alignment_` of structures and unions.
pub record Context : Type 0 where
  pub dies : Dwarf
  pub object : ℕ → Object
  pub entries : ℕ → Entry
  pub pointer_size : ℕ
  pub member_alignment : ℕ → ℕ

abbrev pub is_subroutine : Tag → Bool
is_subroutine subroutine_type = true
is_subroutine _ = false

abbrev is_parameter : Tag → Bool
is_parameter formal_parameter = true
is_parameter _ = false

-- `size *= d` for each dimension, where the size may be None.
unfoldable pub times : Option ℕ → List ℕ → Result (Option ℕ)
times (some n) dims = ok (some (foldl ◌*◌ n dims))
times none [] = ok none
times none (d ∷ dims) = err type_error

-- `f"{text} * {d}"` for each dimension.
unfoldable pub times_text : Text → List ℕ → Text
times_text text [] = text
times_text text (d ∷ dims) = times_text (text ++ (codes " * " ++ decimal d)) dims

unfoldable pub pointer_text : Bool → Text → Text
pointer_text true base = base
pointer_text false base =
    if text_eq base (codes "c_char") || text_eq base (codes "CONST( c_char )")
    then codes "c_char_p"
    else codes "POINTER( " ++ (base ++ codes " )")

module _ (x : Context) where
  open x use {dies, object, entries, pointer_size, member_alignment}

  -- `baseType()`, by the entry that it is for.
  abbrev pub base_of : ℕ → Option ℕ
  base_of h = (dies (object h).definition).type

  -- A method that is called on the base type.
  unfoldable pub on_base {ℓ} : {A : Type ℓ} → (ℕ → Result A) → Option ℕ → Result A
  on_base call none = err attribute_error
  on_base call (some b) = call b

  -- `ArrayType.size`
  unfoldable pub array_size : (ℕ → Result (Option ℕ)) → ℕ → Result (Option ℕ)
  array_size call h = do
    n ← on_base call (base_of h)
    times n (get_array_dimensions dies (object h).definition)

  -- `size`, by the class of the type.
  unfoldable pub size_of : (ℕ → Result (Option ℕ)) → ℕ → Kind → Result (Option ℕ)
  size_of call h typedef_kind = on_base call (base_of h)
  size_of call h const_kind = on_base call (base_of h)
  size_of call h volatile_kind = on_base call (base_of h)
  size_of call h restrict_kind = on_base call (base_of h)
  size_of call h array_kind = array_size call h
  size_of call h function_kind = err other_exception
  size_of call h function_def_kind = err other_exception
  size_of call h _ = ok (dies (object h).definition).byte_size

  -- `size`, of the type of an entry; a type of another module has `Type.size`.
  unfoldable pub size : ℕ → ℕ → Result (Option ℕ)
  size zero h = err out_of_fuel
  size (suc f) h =
      let own = size_of (size f) h (object h).kind in
      if (object h).is_external then ok (dies (object h).definition).byte_size else own

  -- An alignment that `baseTypeAlignment` has found, or its exception.
  unfoldable pub from_alignment : Alignment → Result ℕ
  from_alignment (Alignment.aligned a) = ok a
  from_alignment Alignment.no_python_ctype = err other_exception
  from_alignment Alignment.attribute_error = err attribute_error
  from_alignment Alignment.out_of_fuel = err out_of_fuel

  -- `Type.alignment`
  unfoldable pub base_alignment : (ℕ → Result ℕ) → Option ℕ → Result ℕ
  base_alignment call none = ok 1
  base_alignment call (some b) = call b

  -- `alignment`, by the class of the type; `is_narrow` says that pointers have 4 bytes.
  unfoldable pub alignment_of : Bool → ℕ → (ℕ → Result ℕ) → ℕ → Kind → Result ℕ
  alignment_of is_narrow f call h pointer_kind = ok pointer_size
  alignment_of is_narrow f call h struct_kind = ok (member_alignment h)
  alignment_of is_narrow f call h union_kind = ok (member_alignment h)
  alignment_of is_narrow f call h primitive_kind =
      from_alignment (base_type_alignment entries is_narrow f (object h).die)
  alignment_of is_narrow f call h _ = base_alignment call (base_of h)

  unfoldable pub alignment : Bool → ℕ → ℕ → Result ℕ
  alignment is_narrow zero h = err out_of_fuel
  alignment is_narrow (suc f) h =
      let own = alignment_of is_narrow f (alignment is_narrow f) h (object h).kind in
      if (object h).is_external then base_alignment (alignment is_narrow f) (base_of h) else own

  -- `params()`, by the entries of their types; a parameter has a type.
  unfoldable pub params_of : List ℕ → List (Option ℕ)
  params_of [] = []
  params_of (c ∷ cs) =
      (if is_parameter (dies c).tag then (dies c).type ∷ [] else []) ++ params_of cs

  unfoldable pub param_texts : (ℕ → Result Text) → List (Option ℕ) → Result Text
  param_texts call [] = ok (codes ")")
  param_texts call (p ∷ ps) = do
    text ← elim p [ none ↦ ok (codes "void") | some t ↦ call t ]
    rest ← param_texts call ps
    ok (codes ", " ++ (text ++ (codes "\n      " ++ rest)))

  unfoldable pub return_text : (ℕ → Result Text) → Option ℕ → Result Text
  return_text call none = ok (codes "None")
  return_text call (some t) = call t

  -- `FunctionType.ctype`
  unfoldable pub function_text : (ℕ → Result Text) → ℕ → Result Text
  function_text call h = do
    returned ← return_text call (base_of h)
    params ← param_texts call (params_of (dies (object h).die).children)
    ok (codes "CFUNCTYPE( " ++ (returned ++ params))

  abbrev wrap : String → Text → Text
  wrap name text = codes name ++ (codes "( " ++ (text ++ codes " )"))

  unfoldable pub modifier_text : String → (ℕ → Result Text) → Option ℕ → Result Text
  modifier_text name call base = do text ← on_base call base; ok (wrap name text)

  -- `ConstType.ctype`
  unfoldable pub const_text : (ℕ → Result Text) → Option ℕ → Result Text
  const_text call none = ok (wrap "CONST" (codes "c_void_p"))
  const_text call (some b) = do text ← call b; ok (wrap "CONST" text)

  -- `PointerType.ctype`, once `isVoidp()` is known.
  unfoldable pub pointer_to : (ℕ → Result Text) → Bool → Option ℕ → Result Text
  pointer_to call true base = ok (codes "c_void_p")
  pointer_to call false none = err attribute_error
  pointer_to call false (some b) = do
    text ← call b
    ok (pointer_text (is_subroutine (dies b).tag) text)

  unfoldable pub array_text : (ℕ → Result Text) → ℕ → Result Text
  array_text call h = do
    text ← on_base call (base_of h)
    ok (times_text text (get_array_dimensions dies (object h).definition))

  -- `ctype`, by the class of the type.
  unfoldable pub ctype_of : ℕ → (ℕ → Result Text) → ℕ → Kind → Result Text
  ctype_of f call h function_kind = function_text call h
  ctype_of f call h function_def_kind = function_text call h
  ctype_of f call h array_kind = array_text call h
  ctype_of f call h pointer_kind = do
    voidp ← is_void dies f (base_of h)
    pointer_to call voidp (base_of h)
  ctype_of f call h const_kind = const_text call (base_of h)
  ctype_of f call h volatile_kind = modifier_text "VOLATILE" call (base_of h)
  ctype_of f call h restrict_kind = modifier_text "RESTRICT" call (base_of h)
  ctype_of f call h primitive_kind = ok (primitive_ctype (entries (object h).die))
  ctype_of f call h _ = ok (object h).py_name

  unfoldable pub ctype : ℕ → ℕ → Result Text
  ctype zero h = err out_of_fuel
  ctype (suc f) h =
      let own = ctype_of f (ctype f) h (object h).kind in
      if (object h).is_external then ok (object h).py_name else own
