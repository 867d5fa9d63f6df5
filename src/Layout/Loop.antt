-- ===== src/Layout/Loop.antt =====
-- The `while` loop of a bitfield ends, and where it ends.
use ctypegen.Base.{
  ◌+◌, refl, ltb→lt, ℕ, zero, suc, ◌-◌, ◌≤◌, ◌<◌, List, [], ◌++◌, ◌≡◌, arith, ltb, ltb→le, le→ltb,
  Bool-cases, inl, inr,
}
use ctypegen.Dwarf.{Result, ok, err}
use ctypegen.Layout.Bits.{
  difference, place_bits, Cursor, Pad, prepend, skipped, next_object, advance,
}

-- With fuel for the bits that are still ahead the loop returns.
pub advance_total :
    (f width unit off : ℕ) (c : Cursor)
    → 0 < unit
    → suc off - c.end < f
    → (pads : List Pad) × (c' : Cursor) × (advance f width unit off c ≡ ok (pads, c'))
unfolding advance
advance_total zero width unit off c u m = absurd (omega arith)
advance_total (suc f) width unit off c u m = elim (Bool-cases (ltb off c.end)) [
  | inl done ↦ ([], c, ground arith)
  | inr more ↦
      let (pads, c', e) =
        advance_total f width unit off (next_object unit c) u
          (omega (arith, ltb→le off c.end more)) in
      (skipped width c ++ pads, c', ground arith)
]

-- What a run of the loop that returns has done first.
pub advance-done :
    (f width unit off : ℕ) (c : Cursor) {pads : List Pad} {c' : Cursor}
    → off < c.end
    → advance f width unit off c ≡ ok (pads, c')
    → (pads ≡ []) × (c' ≡ c)
unfolding advance
advance-done zero width unit off c h e = cc
advance-done (suc f) width unit off c h e = ground arith

pub no_fuel :
    (width unit off : ℕ) (c : Cursor) {pads : List Pad} {c' : Cursor}
    → ¬ (advance zero width unit off c ≡ ok (pads, c'))
unfolding advance
no_fuel width unit off c e = cc

prepend-eq-ok :
    (m : Result (List Pad × Cursor)) (before : List Pad) {pads : List Pad} {c' : Cursor}
    → prepend before m ≡ ok (pads, c')
    → (rest : List Pad) × (m ≡ ok (rest, c')) × (pads ≡ before ++ rest)
prepend-eq-ok (ok (rest, c'')) before h = (rest, cc, cc)
prepend-eq-ok (err e) before h = cc

pub advance-next :
    (f width unit off : ℕ) (c : Cursor) {pads : List Pad} {c' : Cursor}
    → c.end ≤ off
    → advance (suc f) width unit off c ≡ ok (pads, c')
    → (rest : List Pad) × (advance f width unit off (next_object unit c) ≡ ok (rest, c'))
      × (pads ≡ skipped width c ++ rest)
unfolding advance
advance-next f width unit off c h e =
    prepend-eq-ok (advance f width unit off (next_object unit c)) (skipped width c)
      (rw (le→ltb off c.end h) at e)

-- The loop returns a cursor whose data object holds the bit that it looks for.
pub advance_bounds :
    (f width unit off : ℕ) (c : Cursor) {pads : List Pad} {c' : Cursor}
    → c.offset ≤ off
    → advance f width unit off c ≡ ok (pads, c')
    → (c'.offset ≤ off) × (off < c'.end)
advance_bounds zero width unit off c h e = absurd (no_fuel width unit off c e)
advance_bounds (suc f) width unit off c {c' = c'} h e = elim (Bool-cases (ltb off c.end)) [
  | inl done ↦
      let same = (advance-done (suc f) width unit off c (ltb→lt off c.end done) e).1 in
      rw same (h, ltb→lt off c.end done)
  | inr more ↦
      let past = ltb→le off c.end more in
      let (_, q, _) = advance-next f width unit off c past e in
      advance_bounds f width unit off (next_object unit c) past q
]

-- A bitfield in data objects of at least one bit is placed: the loop ends, and the cursor stands
-- behind the field, in the data object in which the field starts.
pub place_bits_total :
    (width unit off : ℕ) (c : Cursor)
    → 0 < unit
    → c.offset ≤ off
    → (pads : List Pad) × (c' : Cursor) × (place_bits width unit off c ≡ ok (pads, c'))
      × (c'.offset ≡ off + width)
      × (off < c'.end)
unfolding place_bits
place_bits_total width unit off c u h =
    let (pads, c', e) = advance_total (off + 2) width unit off c u (omega arith) in
    let (_, inside) = advance_bounds (off + 2) width unit off c h e in
    (
      pads ++ difference off c',
      record { offset = off + width; end = c'.end },
      rw e refl,
      refl,
      inside,
    )
