-- ===== src/Examine/Keys.antt =====
-- The keys of the resolver's dictionaries: full names, and tags of entries.
use ctypegen.Base.{
  ℕ, ◌+◌, List, [], ◌∷◌, Bool, true, false, ◌&&◌, ◌||◌, Option, none, some, Text, text_eq,
  text_eq_sound, text_eq_refl, if◌then◌else◌, ◌==◌, ◌≡◌, refl, arith,
}
use ctypegen.Dwarf.{
  Tag, array_type, base_type, class_type, compile_unit, const_type, enumeration_type, enumerator,
  formal_parameter, gnu_template_parameter_pack, imported_declaration, inheritance, member,
  namespace, partial_unit, pointer_type, ptr_to_member_type, reference_type, restrict_type,
  rvalue_reference_type, structure_type, subprogram, subrange_type, subroutine_type,
  template_type_param, template_value_param, typedef, union_type, unspecified_type, variable,
  volatile_type, other,
}

-- `die.fullname()`: the scopes of an entry and its name.
abbrev pub Name : Type 0
Name = List Text

unfoldable pub name_eq : Name → Name → Bool
name_eq [] [] = true
name_eq [] (b ∷ n) = false
name_eq (a ∷ m) [] = false
name_eq (a ∷ m) (b ∷ n) = text_eq a b && name_eq m n

pub name_eq_sound : (m n : Name) → name_eq m n ≡ true → m ≡ n
unfolding name_eq
name_eq_sound [] [] h = refl
name_eq_sound [] (b ∷ n) h = ground arith
name_eq_sound (a ∷ m) [] h = ground arith
name_eq_sound (a ∷ m) (b ∷ n) h = ground (arith, text_eq_sound a b, name_eq_sound m n)

pub name_eq_refl : (n : Name) → name_eq n n ≡ true
unfolding name_eq
name_eq_refl [] = refl
name_eq_refl (a ∷ n) = ground (arith, text_eq_refl a, name_eq_refl n)

-- `name in names`, for a list or a set of full names.
unfoldable pub name_mem : Name → List Name → Bool
name_mem n [] = false
name_mem n (m ∷ ms) = name_eq m n || name_mem n ms

-- A number for each tag, to compare them.
unfoldable pub tag_number : Tag → ℕ
tag_number array_type = 1
tag_number base_type = 2
tag_number class_type = 3
tag_number compile_unit = 4
tag_number const_type = 5
tag_number enumeration_type = 6
tag_number enumerator = 7
tag_number formal_parameter = 8
tag_number gnu_template_parameter_pack = 9
tag_number imported_declaration = 10
tag_number inheritance = 11
tag_number member = 12
tag_number namespace = 13
tag_number partial_unit = 14
tag_number pointer_type = 15
tag_number ptr_to_member_type = 16
tag_number reference_type = 17
tag_number restrict_type = 18
tag_number rvalue_reference_type = 19
tag_number structure_type = 20
tag_number subprogram = 21
tag_number subrange_type = 22
tag_number subroutine_type = 23
tag_number template_type_param = 24
tag_number template_value_param = 25
tag_number typedef = 26
tag_number union_type = 27
tag_number unspecified_type = 28
tag_number variable = 29
tag_number volatile_type = 30
tag_number (other n) = n + 31

unfoldable pub tag_eq : Tag → Tag → Bool
tag_eq a b = tag_number a == tag_number b

pub tag_eq_refl : (t : Tag) → tag_eq t t ≡ true
unfolding tag_eq
tag_eq_refl t = ground arith

module _ {V : Type 0} where
  -- A dictionary whose keys are full names.
  unfoldable pub find_name : Name → List (Name × V) → Option V
  find_name n [] = none
  find_name n ((m, v) ∷ rest) = if name_eq m n then some v else find_name n rest

  unfoldable pub put_name : Name → V → List (Name × V) → List (Name × V)
  put_name n v [] = (n, v) ∷ []
  put_name n v ((m, w) ∷ rest) = if name_eq m n then (m, v) ∷ rest else (m, w) ∷ put_name n v rest

  -- The dictionary of the types of one name, whose keys are tags.
  unfoldable pub find_tag : Tag → List (Tag × V) → Option V
  find_tag t [] = none
  find_tag t ((u, v) ∷ rest) = if tag_eq u t then some v else find_tag t rest

  unfoldable pub put_tag : Tag → V → List (Tag × V) → List (Tag × V)
  put_tag t v [] = (t, v) ∷ []
  put_tag t v ((u, w) ∷ rest) = if tag_eq u t then (u, v) ∷ rest else (u, w) ∷ put_tag t v rest

module _ {V : Type 0} where
  pub find_name-put_name :
      (j k : Name) (v : V) (m : List (Name × V))
      → find_name j (put_name k v m) ≡ (if name_eq k j then some v else find_name j m)
  unfolding find_name put_name
  find_name-put_name j k v [] = refl
  find_name-put_name j k v ((i, w) ∷ m) = ground (
    arith,
    name_eq_sound i k,
    name_eq_sound i j,
    name_eq_sound k j,
    name_eq_refl i,
    find_name-put_name j k v m,
  )

  pub find_tag-put_tag :
      (t u : Tag) (v : V) (m : List (Tag × V))
      → find_tag t (put_tag u v m) ≡ (if tag_eq u t then some v else find_tag t m)
  unfolding find_tag put_tag tag_eq
  find_tag-put_tag t u v [] = refl
  find_tag-put_tag t u v ((k, w) ∷ m) = ground (arith, find_tag-put_tag t u v m)

  -- Tags that the dictionary takes for one.
  pub find_tag-tag_eq :
      (t u : Tag) (m : List (Tag × V)) → tag_eq u t ≡ true → find_tag t m ≡ find_tag u m
  unfolding find_tag tag_eq
  find_tag-tag_eq t u [] h = refl
  find_tag-tag_eq t u ((k, w) ∷ m) h = ground (arith, find_tag-tag_eq t u m)
