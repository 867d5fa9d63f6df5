-- ===== src/Layout/Members.antt =====
-- CTypeGen/__init__.py, `Member`, `isEmptyBase` and `findMembers`: the members of a structure or union, and empty
-- base classes.
use ctypegen.Base.{
  ℕ, zero, suc, ◌+◌, List, [], ◌∷◌, ◌++◌, Bool, true, false, Option, none, some, Text, codes,
  decimal, if◌then◌else◌,
}
use mathlib.Core.List.{foldl}
use ctypegen.Dwarf.{
  Dwarf, Tag, structure_type, class_type, union_type, typedef, enumeration_type, subprogram,
  template_type_param, template_value_param, const_type, imported_declaration,
  gnu_template_parameter_pack, member, inheritance, is_inheritance, Result, ok, err,
  attribute_error, out_of_fuel, ◌>>=◌,
}

-- A `Member` object. `override` is `ctypeOverride`.
pub record Member : Type 0 where
  pub die : ℕ
  pub name : Text
  pub override : Option Text
  pub allow_unaligned : Bool

-- What `findMembers` has collected, with the entries that it reports as unhandled.
pub record Found : Type 0 where
  pub members : List Member
  pub anonymous : List Member
  pub super_count : ℕ
  pub anon_field : ℕ
  pub unhandled : List ℕ

-- The kinds of children that `findMembers` tells apart.
pub data Role : Type 0 where
  base field ignored unknown : Role

unfoldable pub role : Tag → Role
role inheritance = base
role member = field
role structure_type = ignored
role class_type = ignored
role union_type = ignored
role typedef = ignored
role enumeration_type = ignored
role subprogram = ignored
role template_type_param = ignored
role template_value_param = ignored
role const_type = ignored
role imported_declaration = ignored
role gnu_template_parameter_pack = ignored
role _ = unknown

-- `Member( field, self.resolver )` with its name.
abbrev pub new_member : ℕ → Text → Member
new_member h name = record { die = h; name = name; override = none; allow_unaligned = false }

-- A field, with a name or the next `__anon__member__` name.
unfoldable pub add_field : ℕ → Option Text → Found → Found
add_field h (some name) s = record s { members = s.members ++ new_member h name ∷ [] }
add_field h none s =
    let m = new_member h (codes "__anon__member__" ++ decimal (s.anon_field + 1)) in
    record s {
      members = s.members ++ m ∷ [];
      anonymous = s.anonymous ++ m ∷ [];
      anon_field = s.anon_field + 1;
    }

-- The body of the loop of `findMembers`, for a child that is not external.
unfoldable pub add_child : ℕ → Option Text → Role → Found → Found
add_child h name base s = record s {
  members = s.members ++ new_member h (codes "__super__" ++ decimal s.super_count) ∷ [];
  super_count = s.super_count + 1;
}
add_child h name field s = add_field h name s
add_child h name ignored s = s
add_child h name unknown s = record s { unhandled = s.unhandled ++ h ∷ [] }

abbrev pub nothing_found : Found
nothing_found = record {
  members = [];
  anonymous = [];
  super_count = 0;
  anon_field = 0;
  unhandled = [];
}

module _ (d : Dwarf) where
  unfoldable pub find_member : Found → ℕ → Found
  find_member s h = if (d h).external then s else add_child h (d h).name (role (d h).tag) s

  -- `findMembers`, over the children of the definition.
  unfoldable pub find_members : ℕ → Found
  find_members definition = foldl find_member nothing_found (d definition).children

-- What `isEmptyBase` asks of the type of a member: its class, and the entry that holds its members.
pub data TypeClass : Type 0 where
  external_type : TypeClass
  typedef_type : Option ℕ → TypeClass
  member_type : ℕ → TypeClass
  other_type : TypeClass

-- `for submember in memberType.members`
unfoldable pub all_empty : (ℕ → Result Bool) → List Member → Result Bool
all_empty f [] = ok true
all_empty f (m ∷ ms) = do e ← f m.die; let rest = all_empty f ms; if e then rest else ok false

module _ (d : Dwarf) (class_of : Option ℕ → TypeClass) where
  -- `isEmptyBase`, on the entry of a member. For a typedef the code hands on the type itself, and so
  -- the entry that it tests next is that of a type.
  unfoldable pub is_empty_base : ℕ → ℕ → Result Bool
  is_empty_base zero h = err out_of_fuel
  is_empty_base (suc f) h =
      let below = elim (class_of (d h).type) as (λ _. Result Bool) [
        | external_type ↦ ok false
        | typedef_type none ↦ err attribute_error
        | typedef_type (some k) ↦ is_empty_base f k
        | member_type k ↦ all_empty (is_empty_base f) (find_members d k).members
        | other_type ↦ err attribute_error
      ] in
      if is_inheritance (d h).tag then below else ok false
