-- ===== src/Examine/Asked.antt =====
-- CTypeGen/__init__.py: the arguments of `TypeResolver.__init__`, whose names may be given as in C++, with
-- their scopes in front of "::".
use ctypegen.Base.{ℕ, List, [], ◌∷◌, map, Bool, ◌&&◌, Option, Text, if◌then◌else◌, ◌==◌}
use ctypegen.Examine.Keys.{Name}
use ctypegen.Examine.Visit.{Answer}
use ctypegen.Examine.Requests.{Request, TypeRequest, Requests, callable, listed}

abbrev colon : ℕ
colon = b':'

-- A character in front of the first part.
unfoldable pub onto_first : ℕ → Name → Name
onto_first c [] = (c ∷ []) ∷ []
onto_first c (s ∷ n) = (c ∷ s) ∷ n

-- `n.split( "::" )`
unfoldable pub split_name : Text → Name
split_name [] = [] ∷ []
split_name (c ∷ []) = (c ∷ []) ∷ []
split_name (c ∷ d ∷ s) =
    let behind = split_name s in
    let rest = split_name (d ∷ s) in
    if (c == colon) && (d == colon) then [] ∷ behind else onto_first c rest

-- A name in `functions` or `globalVars`: a tuple of scopes and a name, or a string.
pub data Asked : Type 0 where
  scoped : Name → Asked
  plain : Text → Asked

unfoldable pub asked_name : Asked → Name
asked_name (scoped n) = n
asked_name (plain s) = split_name s

-- `functions` and `globalVars`: a function, a list, or None.
pub data NamesArg : Type 0 where
  filter : (ℕ → Bool) → NamesArg
  names : List Asked → NamesArg
  absent : NamesArg

-- `typeHints`: a function, or the `cName` of each hint.
pub data TypesArg : Type 0 where
  filter : (ℕ → Answer) → TypesArg
  names : List Text → TypesArg

pub record Selection : Type 0 where
  pub types : TypesArg
  pub functions : NamesArg
  pub globals : NamesArg
  pub namespace_filter : Option (ℕ → Bool)

unfoldable pub names_request : NamesArg → Request
names_request (filter f) = callable f
names_request (names asked) = listed (map asked_name asked)
names_request absent = listed []

unfoldable pub types_request : TypesArg → TypeRequest
types_request (filter f) = callable f
types_request (names cnames) = listed (map split_name cnames)

-- What `__init__` makes of its arguments.
unfoldable pub requests_of : Selection → Requests
requests_of a = record {
  types = types_request a.types;
  functions = names_request a.functions;
  globals = names_request a.globals;
  namespace_filter = a.namespace_filter;
}
