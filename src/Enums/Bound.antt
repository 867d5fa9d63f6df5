-- ===== src/Enums/Bound.antt =====
-- The names that the definition of an enumeration binds in the module.
use ctypegen.Base.{List, [], ◌∷◌, Bool, none, some, Text, ◌≡◌, if◌then◌else◌}
use ctypegen.Enums.{
  Child, enumerator, other_child, EnumType, Line, comment, assignment, pass, EnumText, Progress,
}

-- The names that lines assign.
abbrev pub assigned : List Line → List Text
assigned [] = []
assigned (comment t ∷ ls) = assigned ls
assigned (assignment name base value ∷ ls) = name ∷ assigned ls
assigned (pass ∷ ls) = assigned ls

-- The names that the text binds outside of the class.
abbrev pub bound_names : EnumText → List Text
bound_names t = if t.is_nameless then assigned t.lines else []

-- Each enumerator has a name.
abbrev pub AllNamed : List Child → Type 0
AllNamed [] = Unit
AllNamed (enumerator none value ∷ cs) = ⊥
AllNamed (enumerator (some name) value ∷ cs) = AllNamed cs
AllNamed (other_child ∷ cs) = AllNamed cs

module _ (iskeyword : Text → Bool) (e : EnumType) where
  -- What a nameless enumeration assigns is what is added, and another adds nothing.
  abbrev Tracked : Progress → Type 0
  Tracked p = p.defined ≡ (if e.is_nameless then assigned p.lines else [])
