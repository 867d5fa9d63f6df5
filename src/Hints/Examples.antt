-- ===== src/Hints/Examples.antt =====
-- A hint for a typedef of a structure, which names the type of a member and the member itself.
use ctypegen.Base.{
  ℕ, zero, suc, ◌<◌, List, [], ◌∷◌, true, false, Option, none, some, Text, codes, text_eq, lookup,
  ◌≡◌, ◌⊎◌, refl, arith, map,
}
use ctypegen.Dwarf.{Die, Dwarf, structure_type, typedef, other, Tag, Result, ok, err}
use ctypegen.Hints.{
  Hint, PythonType, Shape, Hinted, Taker, member_taker, ignoring, typedef_taker, put, is_for,
  apply_tags, apply_name, apply_names, or_else, override_of, change, change_named, change_all,
  set_options, register_type, register, register_all, apply_members, apply_by, apply_hints,
  apply_each, hint_round, apply_all, take_found,
}
use ctypegen.Hints.Finding.{entries_of}
use ctypegen.Hints.Filling.{is_awaited}
use ctypegen.Hints.Entries.{apply_all-entries_of}
use ctypegen.Hints.Rounds.{FieldsBelow, apply_all-ok}
use ctypegen.Examine.Keys.{tag_eq, tag_number}
use ctypegen.Layout.Members.{Member, find_members, find_member, role, add_child, add_field}

abbrev entry : Option ℕ → Die
entry type = record {
  tag = other 0;
  name = none;
  fullname = [];
  type = type;
  children = [];
  byte_size = none;
  bit_size = none;
  bit_offset = none;
  data_bit_offset = none;
  data_member_location = none;
  count = none;
  upper_bound = none;
  external = false;
  declaration = false;
}

-- 0 is a structure with the member 1 of type 2, 3 a typedef of it.
abbrev dies : Dwarf
dies zero = record (entry none) { children = 1 ∷ [] }
dies (suc zero) = record (entry (some 2)) { tag = Tag.member; name = some (codes "inner") }
dies (suc (suc h)) = entry (some 2)

abbrev or_void : Option ℕ → ℕ
or_void none = 9
or_void (some h) = h

abbrev taker : ℕ → Taker
taker zero = member_taker
taker (suc zero) = ignoring
taker (suc (suc zero)) = member_taker
taker (suc (suc (suc t))) = typedef_taker (some 0)

abbrev python_type : List (Text × Hint) → PythonType
python_type hints = record {
  field_hints = hints;
  pack = true;
  base = none;
  mixins = none;
  nameless_enum = none;
  unaligned_ptrs = some false;
}

abbrev hint_of : ℕ → PythonType
hint_of zero = python_type (
    (
      codes "inner",
      record {
        typename = some 1;
        name = some (codes "within");
        type_override = none;
        allow_unaligned = true;
      },
    )
    ∷ [])
hint_of (suc hint) = python_type []

abbrev shape : Shape
shape = record {
  members = [];
  packed = false;
  base = codes "Structure";
  mixins = [];
  unaligned_ptrs = false;
  anonymous = [];
  super_count = 0;
  unhandled = [];
}

abbrev before : Hinted
before = record {
  pending = (3, 0) ∷ (0, 0) ∷ [];
  hinted = (3, 0) ∷ (0, 0) ∷ [];
  shapes = λ t. shape;
  nameless = λ t. false;
}

abbrev outcome : Result Hinted → List (ℕ × ℕ) × List Text
outcome (ok s) = (s.hinted, map (λ (m : Member). m.name) (s.shapes 0).members)
outcome (err e) = ([], [])

hints_run :
    outcome (apply_all dies (λ t. t) or_void hint_of taker 2 3 before)
    ≡ ((3, 0) ∷ (0, 0) ∷ (2, 1) ∷ [], codes "within" ∷ [])
unfolding apply_all hint_round apply_each apply_hints apply_by apply_members register_all register
    register_type change_all change_named change set_options or_else override_of put lookup text_eq
    take_found find_members find_member role add_child add_field
hints_run = refl

abbrev hint_rank : ℕ → ℕ
hint_rank zero = 1
hint_rank (suc hint) = 0

abbrev types_rank : ℕ → ℕ
types_rank zero = 0
types_rank (suc zero) = 0
types_rank (suc (suc zero)) = 0
types_rank (suc (suc (suc t))) = 1

aliased : (t b : ℕ) → taker t ≡ typedef_taker (some b) → types_rank b < types_rank t
aliased zero b e = cc
aliased (suc zero) b e = cc
aliased (suc (suc zero)) b e = cc
aliased (suc (suc (suc t))) zero e = omega arith
aliased (suc (suc (suc t))) (suc b) e = cc

hints-FieldsBelow : (hint : ℕ) → FieldsBelow hint_rank (hint_rank hint) (hint_of hint).field_hints
hints-FieldsBelow zero = (omega arith, tt)
hints-FieldsBelow (suc hint) = tt

enough : (t : ℕ) → types_rank t < 2
enough zero = omega arith
enough (suc zero) = omega arith
enough (suc (suc zero)) = omega arith
enough (suc (suc (suc t))) = omega arith

apply_all-ok_example :
    (s' : Hinted) × (apply_all dies (λ t. t) or_void hint_of taker 2 3 before ≡ ok s')
    × (s'.pending ≡ [])
apply_all-ok_example =
    apply_all-ok hint_rank dies (λ t. t) or_void hint_of taker types_rank 2 aliased
      hints-FieldsBelow enough 2 before (omega arith, (omega arith, tt))

abbrev state_of : Result Hinted → Hinted
state_of (ok s) = s
state_of (err e) = before

abbrev after : Hinted
after = state_of (apply_all dies (λ t. t) or_void hint_of taker 2 3 before)

before_run : apply_all dies (λ t. t) or_void hint_of taker 2 3 before ≡ ok after
unfolding apply_all hint_round apply_each apply_hints apply_by apply_members register_all register
    register_type change_all change_named change set_options or_else override_of put lookup text_eq
    take_found find_members find_member role add_child add_field
before_run = refl

apply_all-entries_of_example :
    (entries_of (after.shapes 0) ≡ 1 ∷ [])
    ⊎ ((entries_of (after.shapes 0) ≡ [])
        × (is_awaited dies (λ t. t) or_void hint_of taker before 0 ≡ false))
apply_all-entries_of_example =
    apply_all-entries_of dies (λ t. t) or_void hint_of taker 2 3 before after before_run 0

-- It is the first case: a hint is to be applied to the structure.
awaited_run : is_awaited dies (λ t. t) or_void hint_of taker before 0 ≡ true
awaited_run = refl

-- A hint for structures leaves the typedef of the same name alone.
names_run :
    apply_names
      (λ name. (typedef, 3) ∷ (structure_type, 0) ∷ [])
      ((codes "s" ∷ [], (some (structure_type ∷ []), 0)) ∷ [])
      (record before { pending = []; hinted = [] }, 0)
    ≡ (record before { pending = (0, 0) ∷ []; hinted = (0, 0) ∷ [] }, 0)
unfolding apply_names apply_name apply_tags is_for put tag_number tag_eq
names_run = refl
