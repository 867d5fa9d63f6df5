-- ===== src/Examine/Visit.antt =====
-- CTypeGen/__init__.py: `examineDIE` and `enumerateDIEs`: what the resolver keeps of the entries of a
-- library, which form a tree.
use ctypegen.Base.{
  ℕ, List, [], ◌∷◌, ◌++◌, Bool, true, false, not, ◌&&◌, ◌||◌, Option, none, some, Text, text_mem,
  if◌then◌else◌, is_some,
}
use ctypegen.Dwarf.{
  Tag, base_type, class_type, compile_unit, enumeration_type, namespace, partial_unit,
  structure_type, subprogram, typedef, union_type, variable, Dwarf, Result, ok, ◌>>=◌,
}
use ctypegen.Examine.Keys.{Name, name_eq, tag_eq, find_name, put_name}
use ctypegen.Examine.Find.{TypeRef, kept, World, Tables, die_to_type}

-- An entry with the entries below it.
mutual
  pub data Tree : Type 0 where
    node : ℕ → Forest → Tree

  pub data Forest : Type 0 where
    end : Forest
    child : Tree → Forest → Forest

-- What the filter for types answers: False, True, or a `PythonType`.
pub data Answer : Type 0 where
  refused wanted : Answer
  hinted : ℕ → Answer

-- `typesFilter`, `functionsFilter`, `globalsFilter` and `namespaceFilter`.
pub record Filters : Type 0 where
  pub types : ℕ → Answer
  pub functions : ℕ → Bool
  pub globals : ℕ → Bool
  pub namespaces : ℕ → Bool

-- The resolver while it searches. `hints` stands for `applyHints` and for `allHintedTypes`, which get the
-- same hints here; a name that is asked for and not found yet has no entry.
pub record Found : Type 0 where
  pub tables : Tables
  pub variables : List (Name × Option ℕ)
  pub functions : List (Name × Option ℕ)
  pub define_types : List TypeRef
  pub hints : List (TypeRef × ℕ)
  pub producers : List Text

abbrev pub is_unit : Tag → Bool
is_unit compile_unit = true
is_unit partial_unit = true
is_unit _ = false

-- `tag in TypeResolver.typeDieTags`
abbrev pub is_named_type : Tag → Bool
is_named_type structure_type = true
is_named_type class_type = true
is_named_type union_type = true
is_named_type enumeration_type = true
is_named_type typedef = true
is_named_type base_type = true
is_named_type _ = false

-- `tag in TypeResolver.namespaceDieTags`
abbrev pub is_namespace : Tag → Bool
is_namespace namespace = true
is_namespace structure_type = true
is_namespace class_type = true
is_namespace _ = false

abbrev pub is_enumeration : Tag → Bool
is_enumeration enumeration_type = true
is_enumeration _ = false

abbrev pub is_variable : Tag → Bool
is_variable variable = true
is_variable _ = false

abbrev pub is_subprogram : Tag → Bool
is_subprogram subprogram = true
is_subprogram _ = false

-- Type objects are the same if their names and tags are.
unfoldable pub ref_eq : TypeRef → TypeRef → Bool
ref_eq (kept m t) (kept n u) = name_eq m n && tag_eq t u
ref_eq _ _ = false

unfoldable pub has_ref : TypeRef → List TypeRef → Bool
has_ref t [] = false
has_ref t (u ∷ us) = ref_eq u t || has_ref t us

-- `self.defineTypes.add( typ )`
unfoldable pub add_ref : TypeRef → List TypeRef → List TypeRef
add_ref t ts = if has_ref t ts then ts else ts ++ t ∷ []

-- `applyHintToType`
unfoldable pub put_hint : TypeRef → ℕ → List (TypeRef × ℕ) → List (TypeRef × ℕ)
put_hint t hint [] = (t, hint) ∷ []
put_hint t hint ((u, old) ∷ rest) =
    if ref_eq u t then (u, hint) ∷ rest else (u, old) ∷ put_hint t hint rest

-- `self.producers.add( producer )`, if there is one.
unfoldable pub add_producer : Option Text → List Text → List Text
add_producer none producers = producers
add_producer (some p) producers = if text_mem p producers then producers else producers ++ p ∷ []

-- `get( name ) is None`: the name is absent, or has no entry yet.
unfoldable pub is_open : Option (Option ℕ) → Bool
is_open none = true
is_open (some none) = true
is_open (some (some h)) = false

unfoldable pub want_type : Answer → TypeRef → Tables → Found → Found
want_type (hinted hint) t tables s = record s {
  tables = tables;
  define_types = add_ref t s.define_types;
  hints = put_hint t hint s.hints;
}
want_type answer t tables s = record s { tables = tables; define_types = add_ref t s.define_types }

module _ (d : Dwarf) (w : World) (filters : Filters) where
  unfoldable pub examine_variable : ℕ → Found → Found
  examine_variable h s =
      if filters.globals h && is_open (find_name (d h).fullname s.variables)
      then record s { variables = put_name (d h).fullname (some h) s.variables }
      else s

  unfoldable pub examine_function : ℕ → Found → Found
  examine_function h s =
      if is_open (find_name (d h).fullname s.functions) && filters.functions h
      then record s { functions = put_name (d h).fullname (some h) s.functions }
      else s

  -- A type of which the filter has told.
  unfoldable pub take_type : ℕ → ℕ → Answer → Found → Result Found
  take_type f h refused s = ok s
  take_type f h answer s = do
    (t, tables) ← die_to_type d w f (some h) s.tables
    ok (want_type answer t tables s)

  unfoldable pub examine_type : ℕ → ℕ → Found → Result Found
  examine_type f h s = if is_named_type (d h).tag then take_type f h (filters.types h) s else ok s

  -- A definition of anything but a variable: the answer is whether to go on below it.
  unfoldable pub examine_definition : ℕ → ℕ → Found → Result (Bool × Found)
  examine_definition f h s =
      if is_subprogram (d h).tag
      then ok (false, examine_function h s)
      else (do s' ← examine_type f h s; ok (is_namespace (d h).tag && filters.namespaces h, s'))

  -- `examineDIE`
  unfoldable pub examine_die : ℕ → ℕ → Found → Result (Bool × Found)
  examine_die f h s =
      if is_unit (d h).tag
      then ok (true, record s { producers = add_producer (w.producer h) s.producers })
      else if not (is_some (d h).name) && not (is_enumeration (d h).tag)
      then ok (false, s)
      else if is_variable (d h).tag
      then ok (false, examine_variable h s)
      else if (d h).declaration
      then ok (false, s)
      else examine_definition f h s

  unfoldable mutual
    -- `enumerateDIEs`
    pub enumerate_dies : ℕ → Tree → Found → Result Found
    enumerate_dies f (node h below) s = do
      (descend, s') ← examine_die f h s
      let rest = enumerate_all f below s'
      if descend then rest else ok s'

    pub enumerate_all : ℕ → Forest → Found → Result Found
    enumerate_all f end s = ok s
    enumerate_all f (child t ts) s = do s' ← enumerate_dies f t s; enumerate_all f ts s'
