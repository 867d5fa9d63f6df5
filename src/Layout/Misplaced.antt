-- ===== src/Layout/Misplaced.antt =====
-- The bitfields that the generated padding puts at another offset than the debug information.
use ctypegen.Base.{ℕ, suc, ◌+◌, ◌<◌, List, [], ◌++◌, ◌≡◌, refl, arith}
use ctypegen.Dwarf.{ok}
use ctypegen.Layout.Bits.{Cursor, Pad, skipped, next_object, advance, difference, place_bits}
use ctypegen.Layout.Loop.{advance_total, advance-done, advance-next}
use ctypegen.Layout.Replay.{allocate, replay, IsMisplaced}

module _ (width unit off : ℕ) (c : Cursor) (bad : IsMisplaced unit width off c) where
  unskipped : skipped width c ≡ []
  unfolding skipped
  unskipped = ground arith

  advance-misplaced :
      (f : ℕ) {pads : List Pad} {p : Cursor}
      → advance (suc f) width unit off c ≡ ok (pads, p)
      → (pads ≡ []) × (p ≡ next_object unit c)
  advance-misplaced f e =
      let (rest, q, split) = advance-next f width unit off c (omega arith) e in
      let (none_left, same) = advance-done f width unit off (next_object unit c) (omega arith) q in
      (rw (split, unskipped) none_left, same)

  difference-misplaced :
      (allocate unit width (replay unit (difference off (next_object unit c)) c)).0 ≡ c.end
  unfolding difference
  difference-misplaced = ground arith

-- Where the padding of the next data object fits into the room that the field did not fit into, a
-- reader of the generated padding has the field at the start of the next data object, which is
-- before the offset that the debug information gives.
pub place_bits-misplaced :
    (width unit off : ℕ) (c : Cursor)
    → IsMisplaced unit width off c
    → (pads : List Pad) × (c' : Cursor) × (place_bits width unit off c ≡ ok (pads, c'))
      × ((allocate unit width (replay unit pads c)).0 ≡ c.end)
      × ((allocate unit width (replay unit pads c)).0 < off)
unfolding place_bits
place_bits-misplaced width unit off c bad =
    let (pads, p, e) = advance_total (off + 2) width unit off c (omega arith) (omega arith) in
    let fuel : off + 2 ≡ suc (off + 1) = omega arith in
    let (none_left, next) =
      advance-misplaced width unit off c bad (off + 1) {pads = pads} {p = p} (rw fuel at e) in
    let at = difference-misplaced width unit off c bad in
    (
      pads ++ difference off p,
      record { offset = off + width; end = p.end },
      rw e refl,
      rw (none_left, next) at,
      rw (none_left, next, at) bad.0,
    )
