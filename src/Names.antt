-- ===== src/Names.antt =====
-- CTypeGen/__init__.py, `asPythonId` and `flatName`: python identifiers for names from debug data.
pub mod Valid
mod Examples
use ctypegen.Base.{
  ℕ, List, [], ◌∷◌, ◌++◌, Bool, false, Option, none, some, Text, codes, if◌then◌else◌, ◌==◌,
  is_some, text_eq,
}
use ctypegen.Dwarf.{Die, Tag, structure_type, union_type, enumeration_type}

-- The dictionary `repls` of `asPythonId`.
unfoldable pub repls : List (ℕ × Text)
repls =
    (b':', codes "_cn")
    ∷ (b'<', codes "_lt")
    ∷ (b'>', codes "_gt")
    ∷ (b'(', codes "_lp")
    ∷ (b')', codes "_rp")
    ∷ (b'-', codes "_dash")
    ∷ (b'=', codes "_eq")
    ∷ (b'*', codes "_ptr")
    ∷ (b' ', codes "_sp")
    ∷ (b',', codes "_comma")
    ∷ (b'&', codes "_amp")
    ∷ (b'[', codes "_lbrack")
    ∷ (b']', codes "_rbrack")
    ∷ (b'\'', codes "_quot")
    ∷ []

-- `repls[ c ]`, or `none` where `c in repls` is false.
unfoldable pub find_repl : ℕ → List (ℕ × Text) → Option Text
find_repl c [] = none
find_repl c ((k, t) ∷ m) = if k == c then some t else find_repl c m

unfoldable pub replacement : ℕ → Option Text
unfolding find_repl repls
replacement c = find_repl c repls

-- The body of the loop: what one character writes.
unfoldable pub escape_char : Bool → ℕ → Option Text → Text
escape_char prev c (some t) = t
escape_char prev c none = if prev then b'_' ∷ c ∷ [] else c ∷ []

-- The loop, over the rest of the name, with `prevWasEscaped`.
unfoldable pub escape : Bool → Text → Text
escape prev [] = []
escape prev (c ∷ s) = escape_char prev c (replacement c) ++ escape (is_some (replacement c)) s

module _ (iskeyword : Text → Bool) where
  -- The last step of `asPythonId`: a keyword gets an underscore.
  unfoldable pub avoid_keyword : Text → Text
  avoid_keyword out = if iskeyword out then out ++ codes "_" else out

  -- The identifier for a name that is not None.
  abbrev pub as_python_text : Text → Text
  as_python_text s = avoid_keyword (escape false s)

  -- `asPythonId`; python's `keyword.iskeyword` is the parameter.
  unfoldable pub as_python_id : Option Text → Option Text
  as_python_id none = none
  as_python_id (some s) = some (as_python_text s)

-- `tagPrefixes.get( die.tag(), "" )`
unfoldable pub tag_prefix : Tag → Text
tag_prefix structure_type = codes "struct_"
tag_prefix union_type = codes "union_"
tag_prefix enumeration_type = codes "enum_"
tag_prefix _ = []

-- `'::'.join( ... )`
unfoldable pub join_scopes : List Text → Text
join_scopes [] = []
join_scopes (s ∷ []) = s
join_scopes (s ∷ t ∷ ts) = s ++ (codes "::" ++ join_scopes (t ∷ ts))

-- `flatName`
unfoldable pub flat_name : Die → Bool → Text
flat_name die with_tag = (if with_tag then tag_prefix die.tag else []) ++ join_scopes die.fullname

-- `dieComment`, from the two names of the type.
unfoldable pub die_comment : Text → Text → Option Text
die_comment py_name name = if text_eq py_name name then none else some (codes "# DIE " ++ name)
