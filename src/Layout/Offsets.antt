-- ===== src/Layout/Offsets.antt =====
-- CTypeGen/__init__.py, `StructType.define`: the table `_ctypegen_offsets` of a structure.
use ctypegen.Base.{
  ℕ, List, [], ◌∷◌, ◌++◌, map, Bool, true, false, Option, none, some, is_some, ◌==◌, not, ◌&&◌,
  if◌then◌else◌,
}
use ctypegen.Layout.Bits.{Pad}
use ctypegen.Layout.Members.{Member}
use ctypegen.Layout.Fields.{Input, location}

-- An entry of the table: -1 for padding, an offset, or None.
pub data Slot : Type 0 where
  padding : Slot
  known : ℕ → Slot
  unknown : Slot

-- `lastOffset`, which starts at -1, a value that no location has.
pub data Last : Type 0 where
  start : Last
  last : Option ℕ → Last

-- `memberOffset != lastOffset`
unfoldable pub is_new : Option ℕ → Last → Bool
is_new o start = true
is_new none (last none) = false
is_new none (last (some b)) = true
is_new (some a) (last none) = true
is_new (some a) (last (some b)) = not (a == b)

abbrev pub slot : Option ℕ → Slot
slot none = unknown
slot (some o) = known o

module _ (i : Input) where
  -- Whether a member has its own offset in the table.
  unfoldable pub is_recorded : Member → Last → Bool
  is_recorded m before = is_new (location i m) before && not (is_some m.override)

  -- The entries for one member, behind those for its padding.
  unfoldable pub member_slots : Member → List Pad → Last → List Slot
  member_slots m pads before =
      map (λ _. padding) pads
      ++ (if is_recorded m before then slot (location i m) else unknown) ∷ []

  abbrev pub last_offset : Member → Last → Last
  last_offset m before = if is_recorded m before then last (location i m) else before

  -- The loop of `StructType.define`, over the members and their `pre_pads`.
  unfoldable pub offsets : List Member → List (List Pad) → Last → List Slot
  offsets [] pads before = []
  offsets (m ∷ ms) [] before = member_slots m [] before ++ offsets ms [] (last_offset m before)
  offsets (m ∷ ms) (ps ∷ pads) before =
      member_slots m ps before ++ offsets ms pads (last_offset m before)
