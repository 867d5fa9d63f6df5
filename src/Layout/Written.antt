-- ===== src/Layout/Written.antt =====
-- CTypeGen/__init__.py: what `MemberType.declare` and the `define` of `StructType` and `UnionType` write of a class.
use ctypegen.Base.{
  ℕ, List, [], ◌∷◌, map, any, Bool, true, false, not, ◌&&◌, Option, none, some, is_some, Text,
  codes, ◌==◌, if◌then◌else◌,
}
use ctypegen.Dwarf.{Result, ok, number, ◌>>=◌}
use ctypegen.Names.{as_python_text, die_comment}
use ctypegen.Hints.{Shape}
use ctypegen.Layout.Members.{Member}
use ctypegen.Layout.Fields.{Layout, Reason, requested, Input, define_fields}
use ctypegen.Layout.Offsets.{Slot, Last, offsets}
use ctypegen.Run.{Allowed, everything, only}
use ctypegen.Write.{text_lt, sorted}

pub data Subclass : Type 0 where
  struct union : Subclass

-- `ctype_subclass`
unfoldable pub ctype_subclass : Subclass → Text
ctype_subclass struct = codes "Structure"
ctype_subclass union = codes "Union"

-- The attributes that `MemberType.__init__` sets and hints change.
unfoldable pub fresh_shape : Subclass → Shape
fresh_shape kind = record {
  members = [];
  packed = false;
  base = ctype_subclass kind;
  mixins = [];
  unaligned_ptrs = false;
  anonymous = [];
  super_count = 0;
  unhandled = [];
}

-- A structure or union whose members are found.
pub record MemberType : Type 0 where
  pub name : Text
  pub kind : Subclass
  pub shape : Shape

-- The class statement, with a comment in front of `pass`.
pub record ClassHead : Type 0 where
  pub name : Text
  pub bases : List Text
  pub comment : Option Text

-- The attributes that `define` sets: `_ctypegen_native_size`, with `_ctypegen_have_definition`; what is written
-- of a type with members, which is `_fields_` and `_pack_`; `_anonymous_`, if it is not empty; the single
-- field of a broken transparent union; and `_ctypegen_offsets` of a structure.
pub record ClassBody : Type 0 where
  pub native_size : ℕ
  pub allow_unaligned : Option Allowed
  pub layout : Option Layout
  pub anonymous : List Text
  pub is_broken_union : Bool
  pub offsets : Option (List Slot)

-- `self.packed`, with its comment.
unfoldable pub requested_packing : Bool → Option Reason
requested_packing true = some requested
requested_packing false = none

-- The members of which a test holds.
unfoldable pub members_where : (Member → Bool) → List Member → List Member
members_where p [] = []
members_where p (m ∷ ms) = let rest = members_where p ms in if p m then m ∷ rest else rest

-- `Member.__lt__`
abbrev pub member_lt : Member → Member → Bool
member_lt m n = text_lt m.name n.name

module _ (i : Input) where
  open i use {dwarf as d, self, definition, iskeyword}

  abbrev pub member_py_name : Member → Text
  member_py_name m = as_python_text iskeyword m.name

  -- `MemberType.declare`
  unfoldable pub declare_class : MemberType → ClassHead
  declare_class t = record {
    name = as_python_text iskeyword t.name;
    bases = t.shape.base ∷ codes "TestableCtypeClass" ∷ t.shape.mixins;
    comment = die_comment (as_python_text iskeyword t.name) t.name;
  }

  -- A list that is not empty.
  abbrev pub only_some : List Text → Option Allowed
  only_some [] = none
  only_some (n ∷ ns) = some (only (n ∷ ns))

  -- `allow_unaligned`
  unfoldable pub unaligned : Shape → Option Allowed
  unaligned s =
      if s.unaligned_ptrs
      then some everything
      else only_some (map member_py_name (members_where (λ m. m.allow_unaligned) s.members))

  -- `_anonymous_`
  unfoldable pub anonymous_names : MemberType → List Text
  anonymous_names t = map member_py_name (
      sorted member_lt
        (members_where (λ m. any (λ h. h == m.die) t.shape.anonymous) t.shape.members))

  -- What is written between the first attributes and the end of `MemberType.define`: the fields, if there are
  -- members.
  unfoldable pub class_layout : MemberType → List Member → Result (Option Layout)
  class_layout t [] = ok none
  class_layout t (m ∷ ms) = do
    l ← define_fields i (requested_packing t.shape.packed) (m ∷ ms) t.shape.super_count
    ok (some l)

  abbrev pub pads_of : Option Layout → List (List ctypegen.Layout.Bits.Pad)
  pads_of none = []
  pads_of (some l) = l.pads

  abbrev pub has_members : List Member → Bool
  has_members [] = false
  has_members (m ∷ ms) = true

  -- `StructType.define`
  unfoldable pub struct_offsets : Subclass → List Member → Option Layout → Option (List Slot)
  struct_offsets struct ms l = some (offsets i ms (pads_of l) Last.start)
  struct_offsets union ms l = none

  -- `UnionType.define`
  unfoldable pub is_broken : Subclass → List Member → Bool
  is_broken struct ms = false
  is_broken union ms = not (has_members ms) && is_some (d self).byte_size

  unfoldable pub class_body : MemberType → Result ClassBody
  class_body t = do
    size ← number (d definition).byte_size
    l ← class_layout t t.shape.members
    ok (record {
      native_size = size;
      allow_unaligned = unaligned t.shape;
      layout = l;
      anonymous = anonymous_names t;
      is_broken_union = is_broken t.kind t.shape.members;
      offsets = struct_offsets t.kind t.shape.members l;
    })

  -- `define`, behind the declaration of the type and the definitions of the types of its members, which Resolve
  -- has: nothing is written of a type with a declaration only.
  unfoldable pub define_class : MemberType → Result (Option ClassBody)
  define_class t =
      let body = (do b ← class_body t; ok (some b)) in
      if (d definition).declaration then ok none else body
