-- ===== src/Layout/Fields.antt =====
-- CTypeGen/__init__.py, `MemberType.define`: the loop of `MemberType.define` over the members, and the
-- packing and trailing padding behind it. The text that the loop writes is kept as a list of entries
-- of `_fields_pre`.
use ctypegen.Base.{
  ℕ, ◌+◌, ◌-◌, ◌*◌, ◌/◌, ◌%◌, List, [], ◌∷◌, ◌++◌, map, Bool, not, ◌&&◌, Option, none, some, Text,
  if◌then◌else◌, ltb, ◌==◌, length, is_some,
}
use ctypegen.Base.Int.{ℤ, sub_ℕ}
use ctypegen.Dwarf.{Dwarf, is_union, Result, ok, err, assertion_error, number, ◌>>=◌}
use ctypegen.Dwarf.Shape.{die_size, die_bit_offset}
use ctypegen.Names.{as_python_text}
use ctypegen.Layout.Bits.{Cursor, Pad, place_bits}
use ctypegen.Layout.Members.{Member, TypeClass, is_empty_base}

-- A ctypes type: the text of `ctype()`, or `c_char * n`.
pub data CType : Type 0 where
  text : Text → CType
  chars : ℤ → CType

-- An entry of `_fields_pre`. A prepad carries the identifier of its member and an end position.
pub data Entry : Type 0 where
  prepad : Text → CType → Pad → Entry
  bitfield : Text → CType → ℕ → Entry
  plain : Text → CType → Entry
  trailing_pad : ℕ → Entry

-- Why a type is packed: `packComment`.
pub data Reason : Type 0 where
  requested : Reason
  unaligned_field : Text → ℕ → ℕ → Reason
  uneven_size : ℕ → ℕ → Reason

-- What the type of a member answers to `defined`, `alignment()` and `ctype()`.
pub record TypeView : Type 0 where
  pub class : TypeClass
  pub defined : Bool
  pub alignment : ℕ
  pub ctype : Text

-- The variables of the loop. `pads` holds `pre_pads` of each member so far.
pub record Layout : Type 0 where
  pub entries : List Entry
  pub alignment : ℕ
  pub packed : Option Reason
  pub cursor : Cursor
  pub pads : List (List Pad)

-- `x or 0`
abbrev pub or_zero : Option ℕ → ℕ
or_zero none = 0
or_zero (some n) = n

-- The alignment of the type is that of its most aligned member.
unfoldable pub raise_alignment : ℕ → Layout → Result Layout
raise_alignment a l =
    if ltb l.alignment a
    then if a % l.alignment == 0 then ok (record l { alignment = a }) else err assertion_error
    else ok l

-- `if fieldOffset is not None and fieldAlignment and not self.packed and ...`
unfoldable pub check_aligned : Text → Option ℕ → ℕ → Option Reason → Option Reason
check_aligned name none a packed = packed
check_aligned name (some offset) a (some reason) = some reason
check_aligned name (some offset) a none =
    if not (a == 0) && not (offset % a == 0) then some (unaligned_field name a offset) else none

-- What the loop reads: the debug information with fuel for its chains of types, the entries of the
-- type and of its definition, the types of the members, and python's `iskeyword`.
pub record Input : Type 0 where
  pub dwarf : Dwarf
  pub fuel : ℕ
  pub pointer_size : ℕ
  pub self : ℕ
  pub definition : ℕ
  pub type_of : Option ℕ → TypeView
  pub iskeyword : Text → Bool

module _ (i : Input) where
  open i use {dwarf as d, fuel, pointer_size, self, definition, type_of, iskeyword}

  -- `member.type()`
  abbrev pub view : Member → TypeView
  view m = type_of (d m.die).type

  abbrev pub location : Member → Option ℕ
  location m = (d m.die).data_member_location

  abbrev ctype_text : Member → Text
  ctype_text m = elim (m.override) [ some t ↦ t | none ↦ (view m).ctype ]

  -- The size of a member with no definition, up to the next member or the end of the type.
  unfoldable pub gap : Member → List Member → Result ℤ
  gap m (n ∷ rest) = do o ← number (location n); ok (sub_ℕ o (or_zero (location m)))
  gap m [] = do o ← number (d self).byte_size; ok (sub_ℕ o (or_zero (location m)))

  -- `fieldAlignment` and `typstr`
  unfoldable pub field_type : Member → List Member → Result (ℕ × CType)
  field_type m rest =
      let opaque = gap m rest >>= λ n. ok (1, chars n) in
      if (view m).defined then ok ((view m).alignment, text (ctype_text m)) else opaque

  -- `die_size( fieldDie )`, which a bitfield needs only if it starts a new data object.
  unfoldable pub bits_size : Member → ℕ → Layout → Result ℕ
  bits_size m off l =
      let size = die_size d pointer_size fuel (some m.die) in
      if ltb off l.cursor.end then ok 0 else size

  -- A bitfield at `off`.
  unfoldable pub add_bits : Member → CType → ℕ → Layout → Result Layout
  add_bits m ct off l = do
    width ← number (d m.die).bit_size
    size ← bits_size m off l
    (pads, cursor) ← place_bits width (size * 8) off l.cursor
    let name = as_python_text iskeyword m.name
    ok (record l {
      entries = l.entries ++ (map (prepad name ct) pads ++ bitfield name ct width ∷ []);
      cursor = cursor;
      pads = l.pads ++ pads ∷ [];
    })

  -- The cursor behind a regular member: in a union it stays where it is.
  unfoldable pub behind_field : Member → Cursor → Result Cursor
  behind_field m c =
      let after = do
        size ← die_size d pointer_size fuel (some m.die)
        let end = (or_zero (location m) + size) * 8
        ok (record { offset = end; end = end })
      in if is_union (d definition).tag then ok c else after

  unfoldable pub add_plain : Member → CType → Layout → Result Layout
  add_plain m ct l = do
    c ← behind_field m l.cursor
    ok (record l {
      entries = l.entries ++ plain m.name ct ∷ [];
      cursor = c;
      pads = l.pads ++ [] ∷ [];
    })

  -- `if off is not None and member.ctypeOverride is None`
  unfoldable pub add_entries : Member → CType → Option ℕ → Layout → Result Layout
  add_entries m ct (some off) l =
      if is_some m.override then add_plain m ct l else add_bits m ct off l
  add_entries m ct none l = add_plain m ct l

  -- One member that is no empty base.
  unfoldable pub add_member : Member → List Member → Layout → Result Layout
  add_member m rest l = do
    (a, ct) ← field_type m rest
    l₁ ← raise_alignment a l
    off ← die_bit_offset d pointer_size fuel m.die
    l₂ ← add_entries m ct off l₁
    ok (record l₂ { packed = check_aligned m.name (location m) a l₂.packed })

  -- The body of the loop, and the loop.
  unfoldable pub visit : Member → List Member → Layout → Result Layout
  visit m rest l = do
    empty ← is_empty_base d (λ t. (type_of t).class) fuel m.die
    if empty then ok (record l { pads = l.pads ++ [] ∷ [] }) else add_member m rest l

  unfoldable pub add_members : List Member → Layout → Result Layout
  add_members [] l = ok l
  add_members (m ∷ rest) l = do l' ← visit m rest l; add_members rest l'

  -- `expected_end`, in bytes and up to the alignment.
  unfoldable pub padded_end : ℕ → ℕ → ℕ
  padded_end bits a =
      let bytes = bits / 8 in if bytes % a == 0 then bytes else bytes + (a - bytes % a)

  -- The padding at the end, unless the type is a union or all its members are base classes.
  unfoldable pub add_trailing : ℕ → ℕ → Layout → Result Layout
  add_trailing count super_count l =
      let end = padded_end l.cursor.end l.alignment in
      let more = do
        actual ← number (d definition).byte_size
        ok (
            if ltb end actual && not (count == super_count)
            then record l { entries = l.entries ++ trailing_pad (actual - end) ∷ [] }
            else l)
      in if is_union (d definition).tag then ok l else more

  -- `if not self.packed and sz is not None and sz % self.alignment_ != 0`
  unfoldable pub check_size : Option ℕ → Layout → Layout
  check_size none l = l
  check_size (some size) l =
      if not (is_some l.packed) && not (size % l.alignment == 0)
      then record l { packed = some (uneven_size size l.alignment) }
      else l

  -- A packed type needs no alignment.
  unfoldable pub finish_packing : Layout → Layout
  finish_packing l = if is_some l.packed then record l { alignment = 1 } else l

  abbrev pub start : Option Reason → Layout
  start packed = record {
    entries = [];
    alignment = 1;
    packed = packed;
    cursor = record { offset = 0; end = 0 };
    pads = [];
  }

  -- The fields of a type, from its members and the packing that its hint asks for.
  unfoldable pub define_fields : Option Reason → List Member → ℕ → Result Layout
  define_fields packed [] super_count = ok (start packed)
  define_fields packed (m ∷ ms) super_count = do
    l ← add_members (m ∷ ms) (start packed)
    l' ← add_trailing (length (m ∷ ms)) super_count l
    ok (finish_packing (check_size (d definition).byte_size l'))
