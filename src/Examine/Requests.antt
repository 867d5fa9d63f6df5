-- ===== src/Examine/Requests.antt =====
-- CTypeGen/__init__.py: the filters that `TypeResolver.__init__` makes of what the user asks for, and the
-- namespaces that are searched.
use ctypegen.Base.{
  ℕ, List, [], ◌∷◌, ◌++◌, Bool, true, false, ◌||◌, Option, none, some, if◌then◌else◌,
}
use ctypegen.Dwarf.{Dwarf, Result}
use ctypegen.Examine.Keys.{Name, name_mem, put_name}
use ctypegen.Examine.Find.{World}
use ctypegen.Examine.Visit.{Answer, refused, wanted, Filters, Found, Forest, enumerate_all}

-- A function that filters, or a list of names; an empty list asks for nothing.
pub data Request : Type 0 where
  callable : (ℕ → Bool) → Request
  listed : List Name → Request

pub data TypeRequest : Type 0 where
  callable : (ℕ → Answer) → TypeRequest
  listed : List Name → TypeRequest

-- `typeHints`, by the names of the C types in them, `functions`, `globalVars` and `namespaceFilter`.
pub record Requests : Type 0 where
  pub types : TypeRequest
  pub functions : Request
  pub globals : Request
  pub namespace_filter : Option (ℕ → Bool)

-- `addNamespace`: the scopes `name[ :i ]` around a name, behind the scope `before`.
unfoldable pub scopes : Name → Name → List Name
scopes before [] = []
scopes before (a ∷ []) = []
scopes before (a ∷ b ∷ n) = (before ++ a ∷ []) ∷ scopes (before ++ a ∷ []) (b ∷ n)

unfoldable pub scopes_of_all : List Name → List Name
scopes_of_all [] = []
scopes_of_all (n ∷ ns) = scopes [] n ++ scopes_of_all ns

abbrev pub names_of : Request → List Name
names_of (callable filter) = []
names_of (listed names) = names

abbrev pub type_names_of : TypeRequest → List Name
type_names_of (callable filter) = []
type_names_of (listed names) = names

abbrev pub is_callable : Request → Bool
is_callable (callable filter) = true
is_callable (listed names) = false

abbrev pub is_type_callable : TypeRequest → Bool
is_type_callable (callable filter) = true
is_type_callable (listed names) = false

-- `allNamespaces`
unfoldable pub all_namespaces : Requests → List Name
all_namespaces r =
    scopes_of_all (type_names_of r.types)
    ++ (scopes_of_all (names_of r.globals) ++ scopes_of_all (names_of r.functions))

-- `wildcardNamespace`
unfoldable pub is_wildcard : Requests → Bool
is_wildcard r = is_type_callable r.types || (is_callable r.globals || is_callable r.functions)

module _ (d : Dwarf) where
  abbrev pub filter_of : Request → ℕ → Bool
  filter_of (callable filter) h = filter h
  filter_of (listed names) h = name_mem (d h).fullname names

  abbrev pub types_filter_of : TypeRequest → ℕ → Answer
  types_filter_of (callable filter) h = filter h
  types_filter_of (listed names) h = if name_mem (d h).fullname names then wanted else refused

  abbrev pub namespaces_of : Requests → Option (ℕ → Bool) → ℕ → Bool
  namespaces_of r (some filter) h = filter h
  namespaces_of r none h =
      if is_wildcard r then true else name_mem (d h).fullname (all_namespaces r)

  -- The four filters.
  unfoldable pub filters_of : Requests → Filters
  filters_of r = record {
    types = types_filter_of r.types;
    functions = filter_of r.functions;
    globals = filter_of r.globals;
    namespaces = namespaces_of r r.namespace_filter;
  }

-- A listed name has no entry at first: the loop over the names.
unfoldable pub open_names : List Name → List (Name × Option ℕ) → List (Name × Option ℕ)
open_names [] found = found
open_names (n ∷ ns) found = open_names ns (put_name n none found)

-- The resolver before the search.
unfoldable pub fresh_found : Requests → Found
fresh_found r = record {
  tables = record { types = []; errors = 0 };
  variables = open_names (names_of r.globals) [];
  functions = open_names (names_of r.functions) [];
  define_types = [];
  hints = [];
  producers = [];
}

-- The search of `__init__`, over the units of all libraries.
unfoldable pub search_units : Dwarf → World → ℕ → Requests → Forest → Result Found
search_units d w f r units = enumerate_all d w (filters_of d r) f units (fresh_found r)
