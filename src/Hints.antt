-- ===== src/Hints.antt =====
-- CTypeGen/__init__.py: `Hint`, `PythonType`, `applyHints` of the classes of types, and the loop of
-- `TypeResolver.__init__` that applies the hints.
pub mod Rounds
pub mod Finding
pub mod Filling
pub mod Entries
mod Examples
use ctypegen.Base.{
  ℕ, zero, suc, List, [], ◌∷◌, ◌++◌, Bool, true, any, ◌+◌, Option, none, some, Text, text_eq,
  if◌then◌else◌, ◌==◌, lookup, map,
}
use ctypegen.Dwarf.{Tag, Dwarf, Result, ok, err, out_of_fuel, ◌>>=◌}
use ctypegen.Examine.Keys.{Name, tag_eq}
use ctypegen.Layout.Members.{Member, Found, find_members}

-- A `Hint`; an empty name or override stands for none. A type hint is a number: that of a `PythonType`, or of
-- the one that is made from a simple string.
pub record Hint : Type 0 where
  pub typename : Option ℕ
  pub name : Option Text
  pub type_override : Option Text
  pub allow_unaligned : Bool

-- A `PythonType`, but for its names. `base` and `mixins` are those to set, if any.
pub record PythonType : Type 0 where
  pub field_hints : List (Text × Hint)
  pub pack : Bool
  pub base : Option Text
  pub mixins : Option (List Text)
  pub nameless_enum : Option Bool
  pub unaligned_ptrs : Option Bool

-- `PythonType( name, base=base, pack=pack, mixins=mixins, nameless_enum=nameless_enum,
-- unalignedPtrs=unaligned_ptrs )`; the hints for fields come later.
unfoldable pub new_python_type :
    Option Text → Bool → Option (List Text) → Option Bool → Bool → PythonType
new_python_type base pack mixins nameless_enum unaligned_ptrs = record {
  field_hints = [];
  pack = pack;
  base = base;
  mixins = mixins;
  nameless_enum = nameless_enum;
  unaligned_ptrs = some unaligned_ptrs;
}

-- What `findMembers` and hints change of a structure or union. `anonymous` has the entries of the members in
-- `anonMembers`, and `unhandled` those that an error was reported for.
pub record Shape : Type 0 where
  pub members : List Member
  pub packed : Bool
  pub base : Text
  pub mixins : List Text
  pub unaligned_ptrs : Bool
  pub anonymous : List ℕ
  pub super_count : ℕ
  pub unhandled : List ℕ

-- How the class of a type takes hints: a structure or union, an enumeration, a typedef, or any other.
pub data Taker : Type 0 where
  member_taker enum_taker ignoring : Taker
  typedef_taker : Option ℕ → Taker

-- `applyHints` and `allHintedTypes` of the resolver, from types to hints, with the types.
pub record Hinted : Type 0 where
  pub pending : List (ℕ × ℕ)
  pub hinted : List (ℕ × ℕ)
  pub shapes : ℕ → Shape
  pub nameless : ℕ → Bool

-- A dictionary from types to hints.
unfoldable pub put : ℕ → ℕ → List (ℕ × ℕ) → List (ℕ × ℕ)
put t hint [] = (t, hint) ∷ []
put t hint ((u, old) ∷ rest) =
    let others = put t hint rest in if u == t then (t, hint) ∷ rest else (u, old) ∷ others

-- `applyHintToType`
abbrev pub apply_to_type : ℕ → ℕ → Hinted → Hinted
apply_to_type hint t s = record s { pending = put t hint s.pending; hinted = put t hint s.hinted }

-- `hint.elements is None or tag in hint.elements`
unfoldable pub is_for : Option (List Tag) → Tag → Bool
is_for none tag = true
is_for (some elements) tag = any (tag_eq tag) elements

-- The loop over the types of one name.
unfoldable pub apply_tags : Option (List Tag) → ℕ → List (Tag × ℕ) → Hinted → Hinted
apply_tags elements hint [] s = s
apply_tags elements hint ((tag, t) ∷ rest) s =
    apply_tags elements hint rest (if is_for elements tag then apply_to_type hint t s else s)

-- What is done for one name, by the types that `types` has for it, with the number of errors.
unfoldable pub apply_name : Option (List Tag) → ℕ → List (Tag × ℕ) → Hinted × ℕ → Hinted × ℕ
apply_name elements hint [] (s, errors) = (s, errors + 1)
apply_name elements hint (one ∷ rest) (s, errors) =
    (apply_tags elements hint (one ∷ rest) s, errors)

-- The loop over `hintsByTypename`.
unfoldable pub apply_names :
    (Name → List (Tag × ℕ)) → List (Name × (Option (List Tag) × ℕ)) → Hinted × ℕ → Hinted × ℕ
apply_names types [] s = s
apply_names types ((name, (elements, hint)) ∷ rest) s =
    apply_names types rest (apply_name elements hint (types name) s)

unfoldable pub or_else {ℓ} : {A : Type ℓ} → Option A → A → A
or_else none a = a
or_else (some b) a = b

unfoldable pub override_of : Option Text → Option Text → Option Text
override_of none old = old
override_of (some new) old = some new

-- What a hint does to a member.
unfoldable pub change : Hint → Member → Member
change hint m = record m {
  name = or_else hint.name m.name;
  override = override_of hint.type_override m.override;
  allow_unaligned = hint.allow_unaligned;
}

unfoldable pub change_named : Option Hint → Member → Member
change_named none m = m
change_named (some hint) m = change hint m

-- The first lines of `MemberType.applyHints`.
unfoldable pub set_options : PythonType → Shape → Shape
set_options spec s = record s {
  packed = spec.pack;
  base = or_else spec.base s.base;
  mixins = or_else spec.mixins s.mixins;
  unaligned_ptrs = or_else spec.unaligned_ptrs s.unaligned_ptrs;
}

abbrev pub update : ℕ → Shape → (ℕ → Shape) → ℕ → Shape
update t shape shapes u = if u == t then shape else shapes u

-- `findMembers`, by the members that are known: it finds none where there are some.
unfoldable pub take_found : Found → List Member → Shape → Shape
take_found found (m ∷ ms) s = s
take_found found [] s = record s {
  members = found.members;
  anonymous = s.anonymous ++ map (λ (m : Member). m.die) found.anonymous;
  super_count = found.super_count;
  unhandled = s.unhandled ++ found.unhandled;
}

-- `definition_of` gives the entry that is `definition()` of a type, `type_of` the type of an entry, `hint_of` the
-- `PythonType` of a number, and `taker` the class of a type.
module _ (dies : Dwarf) (definition_of : ℕ → ℕ) (type_of : Option ℕ → ℕ) (hint_of : ℕ → PythonType)
    (taker : ℕ → Taker) where
  -- The hint for the type of a member is registered.
  unfoldable pub register_type : Option ℕ → Member → Hinted → Hinted
  register_type none m s = s
  register_type (some hint) m s = apply_to_type hint (type_of (dies m.die).type) s

  unfoldable pub register : Option Hint → Member → Hinted → Hinted
  register none m s = s
  register (some hint) m s = register_type hint.typename m s

  -- The loop over the members: what it registers, and the members that it leaves.
  unfoldable pub register_all : List (Text × Hint) → List Member → Hinted → Hinted
  register_all hints [] s = s
  register_all hints (m ∷ ms) s = register_all hints ms (register (lookup m.name hints) m s)

  unfoldable pub change_all : List (Text × Hint) → List Member → List Member
  change_all hints [] = []
  change_all hints (m ∷ ms) = change_named (lookup m.name hints) m ∷ change_all hints ms

  abbrev pub hinted_shape : PythonType → Shape → Shape
  hinted_shape spec s = record (set_options spec s) {
    members = change_all spec.field_hints s.members;
  }

  abbrev pub found_shape : ℕ → Shape → Shape
  found_shape t s = take_found (find_members dies (definition_of t)) s.members s

  -- `MemberType.applyHints`, which calls `findMembers`.
  unfoldable pub apply_members : ℕ → PythonType → Hinted → Hinted
  apply_members t spec s =
      let shape = found_shape t (s.shapes t) in
      register_all spec.field_hints shape.members
        (record s { shapes = update t (hinted_shape spec shape) s.shapes })

  -- `EnumType.applyHints`
  unfoldable pub apply_enum : ℕ → Option Bool → Hinted → Hinted
  apply_enum t none s = s
  apply_enum t (some nameless) s = record s {
    nameless = λ u. if u == t then nameless else s.nameless u;
  }

  -- `applyHints`, by the class of the type; a typedef hands the hints to its base type, if there is one.
  unfoldable pub apply_by :
      (ℕ → PythonType → Hinted → Result Hinted) → ℕ → Taker → PythonType → Hinted → Result Hinted
  apply_by call t member_taker spec s = ok (apply_members t spec s)
  apply_by call t enum_taker spec s = ok (apply_enum t spec.nameless_enum s)
  apply_by call t ignoring spec s = ok s
  apply_by call t (typedef_taker none) spec s = ok s
  apply_by call t (typedef_taker (some base)) spec s = call base spec s

  unfoldable pub apply_hints : ℕ → ℕ → PythonType → Hinted → Result Hinted
  apply_hints zero t spec s = err out_of_fuel
  apply_hints (suc f) t spec s = apply_by (apply_hints f) t (taker t) spec s

  -- `for typ, hint in toApply.items()`
  unfoldable pub apply_each : ℕ → List (ℕ × ℕ) → Hinted → Result Hinted
  apply_each f [] s = ok s
  apply_each f ((t, hint) ∷ rest) s = do s' ← apply_hints f t (hint_of hint) s; apply_each f rest s'

  unfoldable pub hint_round : ℕ → (Hinted → Result Hinted) → List (ℕ × ℕ) → Hinted → Result Hinted
  hint_round f next [] s = ok s
  hint_round f next (one ∷ rest) s = do
    s' ← apply_each f (one ∷ rest) (record s { pending = [] })
    next s'

  -- The `while` loop.
  unfoldable pub apply_all : ℕ → ℕ → Hinted → Result Hinted
  apply_all f zero s = err out_of_fuel
  apply_all f (suc n) s = hint_round f (apply_all f n) s.pending s
