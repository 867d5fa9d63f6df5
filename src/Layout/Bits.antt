-- ===== src/Layout/Bits.antt =====
-- CTypeGen/__init__.py, `MemberType.define`: a bitfield and the padding before it. Positions are bits from
-- the start of the structure.
use ctypegen.Base.{ℕ, zero, suc, ◌+◌, ◌-◌, List, [], ◌∷◌, ◌++◌, if◌then◌else◌, leb, ltb, ◌==◌}
use ctypegen.Base.Int.{ℤ, pos, sub_ℕ}
use ctypegen.Dwarf.{Result, ok, err, out_of_fuel, ◌>>=◌}

-- `expected_bit_offset` and `expected_end`.
pub record Cursor : Type 0 where
  pub offset : ℕ
  pub end : ℕ

-- One entry of `pre_pads`, with the `expected_end` that its name carries.
pub record Pad : Type 0 where
  pub end : ℕ
  pub bits : ℤ

-- The `if` in the loop: the padding that consumes the rest of the data object, if the field would
-- have fitted there.
unfoldable pub skipped : ℕ → Cursor → List Pad
skipped width c =
    if leb (c.offset + width) c.end
    then record { end = c.end; bits = pos (c.end - c.offset) } ∷ []
    else []

-- The next data object, of `unit` bits.
abbrev pub next_object : ℕ → Cursor → Cursor
next_object unit c = record { offset = c.end; end = c.end + unit }

-- Padding that is written before what the rest of the loop writes.
abbrev pub prepend : List Pad → Result (List Pad × Cursor) → Result (List Pad × Cursor)
prepend before (ok (rest, c)) = ok (before ++ rest, c)
prepend before (err e) = err e

-- `while off >= expected_end`
unfoldable pub advance : ℕ → ℕ → ℕ → ℕ → Cursor → Result (List Pad × Cursor)
advance zero width unit off c = err out_of_fuel
advance (suc f) width unit off c =
    let rest = prepend (skipped width c) (advance f width unit off (next_object unit c)) in
    if ltb off c.end then ok ([], c) else rest

-- The padding for anonymous fields before this one in its data object.
unfoldable pub difference : ℕ → Cursor → List Pad
difference off c =
    if off == c.offset then [] else record { end = c.end; bits = sub_ℕ off c.offset } ∷ []

-- The padding before a bitfield at `off`, and the cursor behind it.
unfoldable pub place_bits : ℕ → ℕ → ℕ → Cursor → Result (List Pad × Cursor)
place_bits width unit off c = do
  (pads, c') ← advance (off + 2) width unit off c
  ok (pads ++ difference off c', record { offset = off + width; end = c'.end })
