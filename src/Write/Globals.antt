-- ===== src/Write/Globals.antt =====
-- CTypeGen/__init__.py: the assignments and the class `Globals` that `TypeResolver.write` writes behind the
-- types, and `functionTypes`.
use ctypegen.Base.{
  ℕ, List, [], ◌∷◌, ◌++◌, Bool, true, false, not, ◌&&◌, Option, none, some, Text, codes, text_eq,
  if◌then◌else◌,
}
use ctypegen.Dwarf.{
  Tag, structure_type, union_type, class_type, enumeration_type, Die, Dwarf, Result, ok, ◌>>=◌,
}
use ctypegen.Examine.Keys.{Name}
use ctypegen.Names.{as_python_text, join_scopes, flat_name}
use ctypegen.Write.{sorted, name_lt}

-- `name = value`
pub record Assignment : Type 0 where
  pub name : Text
  pub value : Text

-- A line of `Globals.__init__`: the attribute, the ctype, and the symbol.
pub record Global : Type 0 where
  pub attribute : Text
  pub ctype : Text
  pub symbol : Text

-- A type in `types`: its entry, if it is an `ExternalType`, and `defined`.
pub record Known : Type 0 where
  pub die : Die
  pub is_external : Bool
  pub is_defined : Bool

-- `TAGGED_ELEMENTS`
abbrev pub is_tagged : Tag → Bool
is_tagged structure_type = true
is_tagged union_type = true
is_tagged class_type = true
is_tagged enumeration_type = true
is_tagged _ = false

module _ (call : ℕ → Result Text) where
  -- The loop over `allHintedTypes`, in the order of the types: each with `pythonName` of its hint.
  unfoldable pub hint_aliases : List (ℕ × Text) → Result (List Assignment)
  hint_aliases [] = ok []
  hint_aliases ((t, python_name) ∷ rest) = do
    text ← call t
    others ← hint_aliases rest
    ok (
        if text_eq python_name text
        then others
        else record { name = python_name; value = text } ∷ others)

module _ (iskeyword : Text → Bool) where
  -- `pyName`
  abbrev pub py_name : Bool → Die → Text
  py_name with_tag die = as_python_text iskeyword (flat_name die with_tag)

  -- What is written for the types of one name: they are tagged, and the only ones.
  unfoldable pub aliases_of : List (Tag × Known) → List Assignment
  aliases_of [] = []
  aliases_of ((tag, t) ∷ []) =
      if not t.is_external && (t.is_defined && is_tagged tag)
      then record { name = py_name false t.die; value = py_name true t.die } ∷ []
      else []
  aliases_of (one ∷ another ∷ rest) = []

  abbrev pub row_lt : Name × List (Tag × Known) → Name × List (Tag × Known) → Bool
  row_lt (m, row) (n, other) = name_lt m n

  unfoldable pub aliases_in : List (Name × List (Tag × Known)) → List Assignment
  aliases_in [] = []
  aliases_in ((name, row) ∷ rest) = aliases_of row ++ aliases_in rest

  -- The loop over `types`, in the order of the names.
  unfoldable pub unambiguous : List (Name × List (Tag × Known)) → List Assignment
  unambiguous types = aliases_in (sorted row_lt types)

  -- `cname`, of the symbol of a variable.
  unfoldable pub symbol_name : Option Text → Option Text → Option Text
  symbol_name none name = name
  symbol_name (some linkage_name) name = some linkage_name

  -- `%s` of a name that may be absent.
  unfoldable pub shown : Option Text → Text
  shown none = codes "None"
  shown (some name) = name

  module _ (dies : Dwarf) (linkage_name : ℕ → Option Text) (type_of : Option ℕ → ℕ)
      (call : ℕ → Result Text) where
    -- The loop over the variables, in the order of their names.
    unfoldable pub globals_of : List (Name × Option ℕ) → Result (List Global)
    globals_of [] = ok []
    globals_of ((name, none) ∷ rest) = globals_of rest
    globals_of ((name, some h) ∷ rest) = do
      text ← call (type_of (dies h).type)
      others ← globals_of rest
      ok (
          record {
            attribute = as_python_text iskeyword (join_scopes (dies h).fullname);
            ctype = text;
            symbol = shown (symbol_name (linkage_name h) (dies h).name);
          }
          ∷ others)

-- `functionTypes`: the ctypes of the functions by their names in python, where a later one replaces.
unfoldable pub put_text : Text → Text → List (Text × Text) → List (Text × Text)
put_text name text [] = (name, text) ∷ []
put_text name text ((n, t) ∷ rest) =
    let others = put_text name text rest in
    if text_eq n name then (name, text) ∷ rest else (n, t) ∷ others
