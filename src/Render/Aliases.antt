-- ===== src/Render/Aliases.antt =====
-- CTypeGen/__init__.py: the set of tags in `deref` against the classes that `typeFromTag` has for the tags.
use ctypegen.Base.{ℕ, Bool, true, false, Option, none, some, ◌≡◌, sym, ◌∙◌, arith}
use ctypegen.Dwarf.{Tag, Dwarf, is_qualifier, ok}
use ctypegen.Dwarf.Chains.{IsRanked, Suffices, Strips, deref-Strips}
use ctypegen.Dwarf.Shape.{deref}
use ctypegen.Examine.Find.{Kind, type_from_tag}
use ctypegen.Render.Sizes.{is_alias}

abbrev pub is_alias_kind : Option Kind → Bool
is_alias_kind none = false
is_alias_kind (some k) = is_alias k

-- The class of the entry's tag is a typedef or one of the modifiers.
abbrev pub has_alias_class : Dwarf → ℕ → Bool
has_alias_class d h = is_alias_kind (type_from_tag (d h).tag)

is_qualifier-is_alias_kind : (t : Tag) → is_qualifier t ≡ is_alias_kind (type_from_tag t)
unfolding type_from_tag
is_qualifier-is_alias_kind t = ground arith

-- From a type over the base types of typedefs and modifiers to another one.
pub data Leads (d : Dwarf) : Option ℕ → Option ℕ → Type 0 where
  ended : {t : Option ℕ} → Leads d t t
  through :
      {h : ℕ} {t : Option ℕ}
      → has_alias_class d h ≡ true
      → Leads d (d h).type t
      → Leads d (some h) t

abbrev pub IsNoAlias : Dwarf → Option ℕ → Type 0
IsNoAlias d none = Unit
IsNoAlias d (some h) = has_alias_class d h ≡ false

Strips-Leads : (d : Dwarf) {h r : Option ℕ} → Strips d h r → Leads d h r × IsNoAlias d r
Strips-Leads d Strips.void = (ended, tt)
Strips-Leads d (Strips.stop {h} q) = (ended, sym (is_qualifier-is_alias_kind (d h).tag) ∙ q)
Strips-Leads d (Strips.strip {h} q c) =
    let (leads, stripped) = Strips-Leads d c in
    (through (sym (is_qualifier-is_alias_kind (d h).tag) ∙ q) leads, stripped)

-- With fuel for the chain of types, `deref` returns. What it returns is reached over the base types of types
-- whose class, by `typeFromTag`, is a typedef or a const, volatile or restrict modifier, and it is void or a
-- type whose class is none of these.
pub deref-Leads :
    (d : Dwarf) (rank : ℕ → ℕ) (f : ℕ) (h : Option ℕ)
    → IsRanked d rank
    → Suffices rank f h
    → (r : Option ℕ) × (deref d f h ≡ ok r) × Leads d h r × IsNoAlias d r
deref-Leads d rank f h ranked enough =
    let (r, e, c) = deref-Strips d rank ranked f h enough in
    let (leads, stripped) = Strips-Leads d c in (r, e, leads, stripped)
