-- ===== src/Generate/File.antt =====
-- CTypeGen/__init__.py, `generateDwarf`: the parts of the generated file, in their order, and the name of the
-- module that is made of it.
use ctypegen.Base.{
  List, [], ◌∷◌, ◌++◌, map, Option, none, some, Text, codes, ◌==◌, if◌then◌else◌, ◌≡◌, refl,
}
use ctypegen.Generate.{Generated}
use ctypegen.Macro.Callback.{Macro}
use ctypegen.Resolve.{State}
use ctypegen.Write.{sorted, text_lt}

-- The parts of the file: the warning with the file of the caller, `header`, what `write` writes, the list of macros
-- that fail, the macros, `CTYPEGEN_SONAMES`, `decoratedLib`, the producers, the test, and `trailer`.
pub data Section : Type 0 where
  warning header_text trailer_text : Text → Section
  types : State → Section
  failed_macros decorated_lib test_main : Section
  macros : List Macro → Section
  sonames producers : List Text → Section

-- What `generateDwarf` writes besides what it generates.
pub record FileInput : Type 0 where
  pub caller : Text
  pub header : Option Text
  pub sonames : List Text
  pub producers : List Text
  pub trailer : Option Text

-- `re.sub( '"', r'\"', p )`
unfoldable pub escape_quotes : Text → Text
escape_quotes [] = []
escape_quotes (c ∷ s) =
    let rest = escape_quotes s in if c == b'"' then b'\\' ∷ c ∷ rest else c ∷ rest

abbrev optional : (Text → Section) → Option Text → List Section
optional section none = []
optional section (some text) = section text ∷ []

-- The file.
unfoldable pub file_sections : FileInput → Generated → List Section
file_sections i g =
    warning i.caller ∷ optional header_text i.header
    ++ (types g.types
        ∷ failed_macros
        ∷ macros g.macros
        ∷ sonames i.sonames
        ∷ decorated_lib
        ∷ producers (map escape_quotes (sorted text_lt i.producers))
        ∷ test_main
        ∷ optional trailer_text i.trailer)

-- `outname.split( "." )[ 0 ]`
unfoldable pub before_dot : Text → Text
before_dot [] = []
before_dot (c ∷ s) = let rest = before_dot s in if c == b'.' then [] else c ∷ rest

-- `modname`
unfoldable pub default_module : Option Text → Text → Text
default_module none outname = before_dot outname
default_module (some modname) outname = modname

-- A path that starts with a dot has an empty name.
module_name_run : default_module none (codes "./a.py") ≡ []
unfolding default_module before_dot
module_name_run = refl

escape_quotes_run : escape_quotes (codes "a\"b") ≡ codes "a\\\"b"
unfolding escape_quotes
escape_quotes_run = refl
