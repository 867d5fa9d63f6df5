-- ===== src/Write/Library.antt =====
-- CTypeGen/__init__.py: `FunctionDefType.writeLibUpdates` and the loop of `TypeResolver.write` that calls it:
-- the prototypes that a generated module gives to the functions of a library.
use ctypegen.Base.{
  ℕ, ◌+◌, List, [], ◌∷◌, ◌++◌, Bool, ◌&&◌, Option, none, some, Text, codes, text_mem, if◌then◌else◌,
}
use ctypegen.Dwarf.{Result, ok, ◌>>=◌}
use ctypegen.Examine.Keys.{Name}
use ctypegen.Write.{text_lt, sorted}

-- `die.object()`: `dynaddrs()` and `symbol( name ) is not None`.
pub record Object : Type 0 where
  pub dynaddrs : ℕ → Option (List Text)
  pub symbol : Text → Bool

-- What the method reads of a function: `die.object()`, `die.name()`, its linkage name, its address, if it is external, the
-- type that it returns, and the types of its parameters.
pub record Function : Type 0 where
  pub object : Object
  pub name : Text
  pub linkage_name : Option Text
  pub low_pc : Option ℕ
  pub external : Bool
  pub returned : Option ℕ
  pub params : List (Option ℕ)

-- `restype` and `argtypes` of a function of the library; the generated code sets them if the library has the
-- function.
pub record Prototype : Type 0 where
  pub name : Text
  pub restype : Text
  pub argtypes : List Text

pub record Updates : Type 0 where
  pub prototypes : List Prototype
  pub errors : ℕ

-- `name`, of the symbol.
unfoldable pub linker_name : Function → Text
linker_name d = elim (d.linkage_name) [ none ↦ d.name | some name ↦ name ]

abbrev pub or_empty : Option (List Text) → List Text
or_empty none = []
or_empty (some names) = names

unfoldable pub names_at : Object → Option ℕ → List Text
names_at object none = []
names_at object (some address) = or_empty (object.dynaddrs address)

-- The list `names`.
unfoldable pub dynamic_names : Function → List Text
dynamic_names d =
    names_at d.object d.low_pc
    ++ (if d.external && d.object.symbol (linker_name d) then linker_name d ∷ [] else [])

-- `set( names )`
unfoldable pub distinct_names : List Text → List Text
distinct_names [] = []
distinct_names (n ∷ ns) = let rest = distinct_names ns in if text_mem n ns then rest else n ∷ rest

-- `sorted( set( names ) )`
abbrev pub linker_names : Function → List Text
linker_names d = sorted text_lt (distinct_names (dynamic_names d))

module _ (iskeyword : Text → Bool) (call : ℕ → Result Text) where
  -- `args`; a parameter with no type is void.
  unfoldable pub arg_texts : List (Option ℕ) → Result (List Text)
  arg_texts [] = ok []
  arg_texts (p ∷ ps) = do
    text ← elim p [ none ↦ ok (codes "void") | some t ↦ call t ]
    rest ← arg_texts ps
    ok (text ∷ rest)

  -- `restype`
  unfoldable pub restype_text : Option ℕ → Result Text
  restype_text none = ok (codes "None")
  restype_text (some t) = call t

  -- What is written for one name.
  unfoldable pub write_prototype : Function → Text → Updates → Result Updates
  write_prototype d name u = do
    restype ← restype_text d.returned
    args ← arg_texts d.params
    ok (record u {
      prototypes = u.prototypes ++ record { name = name; restype = restype; argtypes = args } ∷ [];
    })

  -- The loop over the names.
  unfoldable pub write_names : Function → List Text → Updates → Result Updates
  write_names d [] u = ok u
  write_names d (name ∷ names) u =
      let written = (do u' ← write_prototype d name u; write_names d names u') in
      let skipped = write_names d names (record u { errors = u.errors + 1 }) in
      if iskeyword name then skipped else written

  -- `writeLibUpdates`
  unfoldable pub write_lib_updates : Function → Updates → Result Updates
  write_lib_updates d u = write_names d (linker_names d) u

  -- The loop of `write`, over the functions in the order of their names, where some were not found.
  unfoldable pub decorate : List (Name × Option Function) → Updates → Result Updates
  decorate [] u = ok u
  decorate ((name, none) ∷ rest) u = decorate rest u
  decorate ((name, some d) ∷ rest) u = do u' ← write_lib_updates d u; decorate rest u'
