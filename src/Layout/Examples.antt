-- ===== src/Layout/Examples.antt =====
-- The structure `torture1` of test/BitfieldTorture.c, and single bitfields.
use ctypegen.Base.{
  text_eq, ℕ, zero, suc, List, [], ◌∷◌, true, false, Option, none, some, codes, Text, length, ◌≡◌,
  refl, arith, ◌<◌,
}
use ctypegen.Base.Int.{pos}
use ctypegen.Dwarf.{
  Die, Dwarf, Tag, other, base_type, structure_type, member, inheritance, is_inheritance, Result,
  ok, err,
}
use ctypegen.Dwarf.Shape.{die_size, sized, die_bit_offset}
use ctypegen.Layout.Bits.{Cursor, Pad, skipped, advance, difference, place_bits}
use ctypegen.Layout.Loop.{place_bits_total}
use ctypegen.Layout.Replay.{allocate, replay, place_bits-replay}
use ctypegen.Layout.Misplaced.{place_bits-misplaced}
use ctypegen.Layout.Members.{
  Member, TypeClass, other_type, member_type, all_empty, find_members, find_member, add_child,
  add_field, role, is_empty_base,
}
use ctypegen.Layout.Fields.{
  CType, text, prepad, bitfield, plain, Layout, Input, start, define_fields, add_members, visit,
  add_member, add_entries, add_plain, add_bits, bits_size, behind_field, field_type, gap,
  raise_alignment, check_aligned, check_size, finish_packing, padded_end, add_trailing,
}
use ctypegen.Layout.Offsets.{
  Slot, padding, known, unknown, Last, offsets, member_slots, is_recorded, is_new,
}
use ctypegen.Layout.Written.{
  MemberType, struct, fresh_shape, ctype_subclass, ClassBody, define_class, class_body,
  class_layout, requested_packing, unaligned, anonymous_names, members_where, is_broken,
  struct_offsets, declare_class,
}
use ctypegen.Layout.Named.{AllMembers, HasOwnName, ListsFields, define_class-ListsFields}
use ctypegen.Run.{only}
use ctypegen.Write.{sorted, insert, text_lt}
use ctypegen.Names.{die_comment, as_python_id, escape, escape_char, avoid_keyword, replacement}

abbrev die : Tag → Text → Die
die tag name = record {
  tag = tag;
  name = some name;
  fullname = name ∷ [];
  type = none;
  children = [];
  byte_size = none;
  bit_size = none;
  bit_offset = none;
  data_bit_offset = none;
  data_member_location = none;
  count = none;
  upper_bound = none;
  external = false;
  declaration = false;
}

abbrev bits_member : Text → ℕ → ℕ → Die
bits_member name width off = record (die member name) {
  type = some 0;
  bit_size = some width;
  data_bit_offset = some off;
}

-- 0 is uint32_t and 1 the structure; 2 to 5 are its members a, b, c and j.
abbrev pub torture : Dwarf
torture zero = record (die base_type (codes "unsigned int")) { byte_size = some 4 }
torture (suc zero) = record (die structure_type (codes "torture1")) {
  byte_size = some 12;
  children = 2 ∷ 3 ∷ 4 ∷ 5 ∷ [];
}
torture (suc (suc zero)) = bits_member (codes "a") 29 3
torture (suc (suc (suc zero))) = bits_member (codes "b") 16 32
torture (suc (suc (suc (suc zero)))) = bits_member (codes "c") 14 48
torture (suc (suc (suc (suc (suc zero))))) = record (die member (codes "j")) {
  type = some 0;
  data_member_location = some 8;
}
torture _ = die (other 0) []

abbrev pub input : Input
input = record {
  dwarf = torture;
  fuel = 4;
  pointer_size = 8;
  self = 1;
  definition = 1;
  type_of =
      λ t. record { class = other_type; defined = true; alignment = 4; ctype = codes "c_uint" };
  iskeyword = λ s. false;
}

abbrev pub unsigned : CType
unsigned = text (codes "c_uint")

program : Unit {0}
unfolding define_fields find_members find_member add_child add_field role is_empty_base add_members
    visit add_member add_entries add_plain add_bits bits_size behind_field field_type gap
    raise_alignment check_aligned check_size finish_packing padded_end add_trailing place_bits
    advance difference skipped die_size sized die_bit_offset as_python_id escape escape_char
    avoid_keyword replacement
program = tt

abbrev pub first_pad : Pad
first_pad = record { end = 32; bits = pos 3 }

abbrev pub result : Layout
result = record {
  entries =
      prepad (codes "a") unsigned first_pad
      ∷ bitfield (codes "a") unsigned 29
      ∷ bitfield (codes "b") unsigned 16
      ∷ bitfield (codes "c") unsigned 14
      ∷ plain (codes "j") unsigned
      ∷ [];
  alignment = 4;
  packed = none;
  cursor = record { offset = 96; end = 96 };
  pads = (first_pad ∷ []) ∷ [] ∷ [] ∷ [] ∷ [];
}

abbrev pub names : Text → ℕ → Member
names name h = record { die = h; name = name; override = none; allow_unaligned = false }

abbrev pub later : List Member
later = names (codes "b") 3 ∷ names (codes "c") 4 ∷ names (codes "j") 5 ∷ []

torture_members : (find_members torture 1).members ≡ names (codes "a") 2 ∷ later
unfolding program
torture_members = refl

-- The bitfield of 16 bits at bit 40, behind one of 20 bits: the padding of 8 bits that is written
-- fits behind the first field.
abbrev behind_20 : Cursor
behind_20 = record { offset = 20; end = 32 }

place_bits_total_example :
    (pads : List Pad) × (c' : Cursor) × (place_bits 16 32 40 behind_20 ≡ ok (pads, c'))
    × (c'.offset ≡ 56)
    × (40 < c'.end)
place_bits_total_example = place_bits_total 16 32 40 behind_20 (omega arith) (omega arith)

place_bits-misplaced_example :
    (pads : List Pad) × (c' : Cursor) × (place_bits 16 32 40 behind_20 ≡ ok (pads, c'))
    × ((allocate 32 16 (replay 32 pads behind_20)).0 ≡ 32)
    × ((allocate 32 16 (replay 32 pads behind_20)).0 < 40)
place_bits-misplaced_example = place_bits-misplaced 16 32 40 behind_20 (omega arith)

-- The comment's example: a field at bit 40 behind one of 16 bits.
abbrev behind_16 : Cursor
behind_16 = record { offset = 16; end = 32 }

abbrev two_pads : List Pad
two_pads = record { end = 32; bits = pos 16 } ∷ record { end = 64; bits = pos 8 } ∷ []

commented_run : place_bits 16 32 40 behind_16 ≡ ok (two_pads, record { offset = 56; end = 64 })
unfolding program
commented_run = refl

place_bits-replay_example :
    allocate 32 16 (replay 32 two_pads behind_16) ≡ (40, record { offset = 56; end = 64 })
place_bits-replay_example =
    place_bits-replay 16 32 40 behind_16 two_pads (record { offset = 56; end = 64 }) (omega arith)
      (omega arith) (omega arith) (omega arith) (omega arith) commented_run (omega arith)

pub torture_added : add_members input (names (codes "a") 2 ∷ later) (start input none) ≡ ok result
unfolding program
torture_added = refl

pub not_empty :
    (h : ℕ)
    → is_inheritance (torture h).tag ≡ false
    → is_empty_base torture (λ t. other_type) 4 h ≡ ok false
unfolding is_empty_base
not_empty h e = rw e refl

-- struct derived : empty { unsigned int a, b; }, where 2 is the base class, 6 its type, 3 is a and 4 is b.
abbrev derived : Dwarf
derived zero = record (die base_type (codes "unsigned int")) { byte_size = some 4 }
derived (suc zero) = record (die structure_type (codes "derived")) { byte_size = some 8 }
derived (suc (suc zero)) = record (die inheritance (codes "empty")) {
  type = some 6;
  data_member_location = some 0;
}
derived (suc (suc (suc zero))) = record (die member (codes "a")) {
  type = some 0;
  data_member_location = some 0;
}
derived (suc (suc (suc (suc zero)))) = record (die member (codes "b")) {
  type = some 0;
  data_member_location = some 4;
}
derived _ = die structure_type (codes "empty")

abbrev class_of : Option ℕ → TypeClass
class_of none = other_type
class_of (some zero) = other_type
class_of (some (suc h)) = member_type (suc h)

abbrev derived_input : Input
derived_input = record input {
  dwarf = derived;
  type_of =
      λ t. record { class = class_of t; defined = true; alignment = 4; ctype = codes "c_uint" };
}

abbrev derived_members : List Member
derived_members = names (codes "__super__0") 2 ∷ names (codes "a") 3 ∷ names (codes "b") 4 ∷ []

abbrev entries_and_table : Result Layout → ℕ × List Slot
entries_and_table (ok l) =
    (length l.entries, offsets derived_input derived_members l.pads Last.start)
entries_and_table (err e) = (0, [])

-- There are two fields, and the table has three entries: a field behind b would be compared with the offset
-- of b.
derived_run :
    entries_and_table (define_fields derived_input none derived_members 1)
    ≡ (2, known 0 ∷ unknown ∷ known 4 ∷ [])
unfolding program define_fields offsets member_slots is_recorded is_new all_empty is_empty_base
    find_members find_member add_members visit add_member add_entries add_plain behind_field
    field_type raise_alignment check_aligned check_size finish_packing padded_end add_trailing
    die_size sized die_bit_offset
derived_run = refl

-- The structure `torture1` as a whole, if a hint gives its last member, which has no name, the name j, and allows
-- that it is unaligned.
abbrev allowed_j : Member
allowed_j = record { die = 5; name = codes "j"; override = none; allow_unaligned = true }

abbrev torture_type : MemberType
torture_type = record {
  name = codes "struct_torture1";
  kind = struct;
  shape = record (fresh_shape struct) {
    members = names (codes "a") 2 ∷ names (codes "b") 3 ∷ names (codes "c") 4 ∷ allowed_j ∷ [];
    anonymous = 5 ∷ [];
  };
}

abbrev torture_body : ClassBody
torture_body = record {
  native_size = 12;
  allow_unaligned = some (only (codes "j" ∷ []));
  layout = some result;
  anonymous = codes "j" ∷ [];
  is_broken_union = false;
  offsets = some (padding ∷ unknown ∷ unknown ∷ unknown ∷ known 8 ∷ []);
}

whole : Unit {0}
unfolding program define_class class_body class_layout requested_packing unaligned anonymous_names
    members_where sorted insert text_lt is_broken struct_offsets fresh_shape ctype_subclass offsets
    member_slots is_recorded is_new declare_class die_comment text_eq
whole = tt

torture_class_run : define_class input torture_type ≡ ok (some torture_body)
unfolding whole
torture_class_run = refl

torture_head_run :
    (declare_class input torture_type).bases ≡ codes "Structure" ∷ codes "TestableCtypeClass" ∷ []
unfolding whole
torture_head_run = refl

torture-HasOwnName : AllMembers (HasOwnName input) torture_type.shape.members
unfolding whole
torture-HasOwnName = (refl, (refl, (refl, (refl, tt))))

define_class-ListsFields_example : ListsFields input torture_body
define_class-ListsFields_example =
    define_class-ListsFields input torture_type torture_body
      (not_empty 2 refl, (not_empty 3 refl, (not_empty 4 refl, (not_empty 5 refl, tt))))
      torture-HasOwnName torture_class_run
