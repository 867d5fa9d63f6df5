-- ===== src/Generate.antt =====
-- CTypeGen/__init__.py: `generate`, `getDwarves` and `generateDwarf`: the search, the definitions of types, and
-- the macros, one behind the other.
pub mod Defined
pub mod Ordered
pub mod Macros
mod File
mod Examples
use ctypegen.Base.{ℕ, List, [], ◌∷◌, ◌++◌, Bool, Option, none, some, Text, map}
use ctypegen.Dwarf.{Dwarf, Result, ok, err, type_error, other_exception, ◌>>=◌}
use ctypegen.Examine.Find.{TypeRef, World}
use ctypegen.Examine.Visit.{Found, Forest}
use ctypegen.Examine.Requests.{Requests, search_units}
use ctypegen.Macro.Callback.{Tools, Event, Macro, Callback, Step, done, raised, listen, fresh}
use ctypegen.Resolve.{State}
use ctypegen.Enums.{EnumType, define_enum_text}
use ctypegen.Write.{Sources, define_types_of}

-- What a caller gives for the libraries: one name, or a list whose first member is a name, or that begins
-- with something else; or neither.
pub data Libnames : Type 0 where
  one : Text → Libnames
  several : List Text → Libnames
  no_names : Libnames

-- `getlib` of each name, which may raise.
unfoldable pub open_all : {L : Type 0} → (Text → Result L) → List Text → Result (List L)
open_all getlib [] = ok []
open_all getlib (name ∷ names) = do lib ← getlib name; libs ← open_all getlib names; ok (lib ∷ libs)

-- `getDwarves`: an empty list has no first member.
unfoldable pub get_dwarves : {L : Type 0} → (Text → Result L) → Libnames → Result (Option (List L))
get_dwarves getlib (one name) = do lib ← getlib name; ok (some (lib ∷ []))
get_dwarves getlib (several []) = err other_exception
get_dwarves getlib (several (name ∷ names)) = do
  libs ← open_all getlib (name ∷ names)
  ok (some libs)
get_dwarves getlib no_names = ok none

-- The call of `errorfunc`, which is None if the caller gives none, and may raise.
unfoldable pub complain : Option (Result Bool) → Result Bool
complain none = err type_error
complain (some reply) = reply

-- The rest of `generate`, once the libraries are open: `( None, None )`, or what `generateDwarf` returns.
unfoldable pub generate_from :
    {L G : Type 0}
    → (List L → Result G)
    → Option (Result Bool)
    → Option (List L)
    → Result (Option G)
generate_from generate_dwarf errorfunc none = do reply ← complain errorfunc; ok none
generate_from generate_dwarf errorfunc (some []) = do reply ← complain errorfunc; ok none
generate_from generate_dwarf errorfunc (some (lib ∷ libs)) = do
  g ← generate_dwarf (lib ∷ libs)
  ok (some g)

-- `generate`
unfoldable pub generate :
    {L G : Type 0}
    → (Text → Result L)
    → (List L → Result G)
    → Option (Result Bool)
    → Libnames
    → Result (Option G)
generate getlib generate_dwarf errorfunc libnames = do
  libs ← get_dwarves getlib libnames
  generate_from generate_dwarf errorfunc libs

-- What is generated: the types, and the macros.
pub record Generated : Type 0 where
  pub types : State
  pub macros : List Macro

abbrev pub macros_of : Step → Result (List Macro)
macros_of (done c) = ok c.output
macros_of (raised e) = err e

-- The macros of the units, if files are given for them; `names` are those of the defined types.
unfoldable pub generate_macros : Option Tools → List Text → List Event → Result (List Macro)
generate_macros none names events = ok []
generate_macros (some tools) names events = macros_of (listen tools events (fresh names))

-- The resolver behind the search; a type object is a number here.
abbrev pub after_search : (TypeRef → ℕ) → Found → State
after_search handle found = record {
  declared = [];
  defined = [];
  wanted = map handle found.define_types;
  output = [];
  errors = found.tables.errors;
}

-- The names that the definition of a type adds besides its own: those of a nameless enumeration.
unfoldable pub value_names : (Text → Bool) → Option EnumType → List Text
value_names iskeyword none = []
value_names iskeyword (some e) = (define_enum_text iskeyword e).1

-- `resolver.defined`, from the types that were defined.
unfoldable pub defined_names :
    (Text → Bool) → (ℕ → Text) → (ℕ → Option EnumType) → List ℕ → List Text
defined_names iskeyword py_name enums [] = []
defined_names iskeyword py_name enums (t ∷ ts) =
    py_name t ∷ (value_names iskeyword (enums t) ++ defined_names iskeyword py_name enums ts)

module _ (x : Sources) (w : World) (handle : TypeRef → ℕ) where
  -- The types of `generateDwarf`: `TypeResolver( ... )` and `write`, with the fuel of chains, calls, rounds.
  unfoldable pub generate_types : ℕ → ℕ → ℕ → Requests → Forest → Result State
  generate_types f calls rounds r units = do
    found ← search_units x.dies w f r units
    define_types_of x calls rounds found.variables found.functions (after_search handle found)

  -- `generateDwarf`, with the identifiers of the types, and the types that are enumerations.
  unfoldable pub generate_dwarf :
      ℕ
      → ℕ
      → ℕ
      → Requests
      → Forest
      → (ℕ → Text)
      → (ℕ → Option EnumType)
      → Option Tools
      → List Event
      → Result Generated
  generate_dwarf f calls rounds r units py_name enums tools events = do
    s ← generate_types f calls rounds r units
    let names = defined_names w.iskeyword py_name enums s.defined
    macros ← generate_macros tools names events
    ok (record { types = s; macros = macros })
