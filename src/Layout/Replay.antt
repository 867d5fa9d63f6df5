-- ===== src/Layout/Replay.antt =====
-- A reader of the generated fields puts them one behind the other: a bitfield goes into the data
-- object in use if it fits there, and else starts the next one. Where that puts a bitfield, with the
-- padding before it, against the offset that the debug information gives.
use ctypegen.Base.{
  ℕ, zero, suc, ◌+◌, ◌-◌, ◌≤◌, ◌<◌, List, [], ◌∷◌, ◌++◌, ◌≡◌, ◌⊎◌, inl, inr, refl, arith,
  if◌then◌else◌, leb, ltb, ltb→lt, ltb→le, Bool-cases,
}
use ctypegen.Base.Int.{pos, negsuc}
use ctypegen.Dwarf.{ok}
use ctypegen.Layout.Bits.{Cursor, Pad, skipped, next_object, advance, difference, place_bits}
use ctypegen.Layout.Loop.{no_fuel, advance_total, advance_bounds, advance-done, advance-next}

-- One bitfield of `width` bits in data objects of `unit` bits.
abbrev pub allocate : ℕ → ℕ → Cursor → ℕ × Cursor
allocate unit width c =
    if leb (c.offset + width) c.end
    then (c.offset, record { offset = c.offset + width; end = c.end })
    else (c.end, record { offset = c.end + width; end = c.end + unit })

abbrev pub pad_width : Pad → ℕ
pad_width p = elim p.bits [ pos n ↦ n | negsuc n ↦ 0 ]

abbrev pub replay : ℕ → List Pad → Cursor → Cursor
replay unit [] c = c
replay unit (p ∷ ps) c = replay unit ps (allocate unit (pad_width p) c).1

-- The reader `r` has a full object, or one with too little room for the field, and the generator
-- `p` is at the start of the next one.
record IsBehind (unit width : ℕ) (r p : Cursor) : Type 0 where
  starts : p.offset ≡ r.end
  ends : p.end ≡ r.end + unit
  inside : r.offset ≤ r.end
  small : r.end < r.offset + width

record IsFull (unit width : ℕ) (r p : Cursor) : Type 0 where
  behind : IsBehind unit width r p
  full : r.offset ≡ r.end

replay-append :
    (unit : ℕ) (ps qs : List Pad) (c : Cursor)
    → replay unit (ps ++ qs) c ≡ replay unit qs (replay unit ps c)
replay-append unit [] qs c = refl
replay-append unit (p ∷ ps) qs c = replay-append unit ps qs _

-- The loop moves to the next data object from one with too little room for the field, and the
-- padding of the next object fits into that room.
abbrev pub IsMisplaced : ℕ → ℕ → ℕ → Cursor → Type 0
IsMisplaced unit width off c =
    (c.end < off)
    × (off < c.end + unit)
    × (c.end < c.offset + width)
    × (off - c.end ≤ c.end - c.offset)

-- From the second data object on, the loop keeps the reader at the end of an object.
module _ (unit width off : ℕ) (pos_width : 0 < width) (fits : width ≤ unit) where
  skip-IsFull :
      (r p : Cursor)
      → IsBehind unit width r p
      → IsFull unit width (replay unit (skipped width p) r) (next_object unit p)
  unfolding skipped
  skip-IsFull r p b = ground arith

  abbrev EndsFull : Cursor → Cursor → List Pad → Cursor → Type 0
  EndsFull r p pads p' = ((pads ≡ []) × (p' ≡ p)) ⊎ IsFull unit width (replay unit pads r) p'

  loop-EndsFull :
      (f : ℕ) (r p : Cursor) {pads : List Pad} {p' : Cursor}
      → IsBehind unit width r p
      → advance f width unit off p ≡ ok (pads, p')
      → EndsFull r p pads p'
  loop-EndsFull zero r p b e = absurd (no_fuel width unit off p e)
  loop-EndsFull (suc f) r p {pads} {p'} b e = elim (Bool-cases (ltb off p.end)) [
    | inl done ↦ inl (advance-done (suc f) width unit off p (ltb→lt off p.end done) e)
    | inr more ↦
        let (rest, q, split) = advance-next f width unit off p (ltb→le off p.end more) e in
        let full = skip-IsFull r p b in
        let r' = replay unit (skipped width p) r in
        rw (split) (
          inr (
            rw (replay-append unit (skipped width p) rest r)
              (elim (loop-EndsFull f r' (next_object unit p) full.behind q) [
                | inl (none_left, same) ↦ rw (none_left, same) full
                | inr ends ↦ ends
              ])))
  ]

  -- What is left to do where the loop ends: the padding in the last object, and the field.
  finish-new :
      (r p : Cursor)
      → IsBehind unit width r p
      → p.offset ≤ off
      → off + width ≤ p.end
      → (off ≡ p.offset) ⊎ (r.end < r.offset + (off - p.offset))
      → allocate unit width (replay unit (difference off p) r)
        ≡ (off, record { offset = off + width; end = p.end })
  unfolding difference
  finish-new r p b h k room = ground arith

  finish-same :
      (c : Cursor)
      → c.offset ≤ off
      → off + width ≤ c.end
      → allocate unit width (replay unit (difference off c) c)
        ≡ (off, record { offset = off + width; end = c.end })
  unfolding difference
  finish-same c h k = ground arith

  finish-full :
      (r p : Cursor)
      → IsFull unit width r p
      → p.offset ≤ off
      → off + width ≤ p.end
      → allocate unit width (replay unit (difference off p) r)
        ≡ (off, record { offset = off + width; end = p.end })
  finish-full r p b h k = finish-new r p b.behind h k (full-room r p b h)
    where
      full-room :
          (r p : Cursor)
          → IsFull unit width r p
          → p.offset ≤ off
          → (off ≡ p.offset) ⊎ (r.end < r.offset + (off - p.offset))
      full-room r p b h = ground arith

  -- The first data object may be left with room in it: then nothing was written.
  skip-first :
      (c : Cursor)
      → c.offset ≤ c.end
      → IsFull unit width (replay unit (skipped width c) c) (next_object unit c)
        ⊎ ((skipped width c ≡ []) × IsBehind unit width c (next_object unit c))
  unfolding skipped
  skip-first c h = ground arith

  -- Where the reader stands after the padding of a loop that ran at all.
  abbrev EndsBehind : Cursor → Cursor → Cursor → Type 0
  EndsBehind c r p =
      IsFull unit width r p
      ⊎ ((r ≡ c) × (p ≡ next_object unit c) × IsBehind unit width c (next_object unit c))

  advance-EndsBehind :
      (f : ℕ) (c : Cursor) {pads : List Pad} {p : Cursor}
      → c.offset ≤ c.end
      → c.end ≤ off
      → advance (suc f) width unit off c ≡ ok (pads, p)
      → EndsBehind c (replay unit pads c) p
  advance-EndsBehind f c h more e =
      let (rest, q, split) = advance-next f width unit off c more e in
      let r = replay unit (skipped width c) c in
      let next = next_object unit c in
      rw split (elim (skip-first c h) [
        | inl full ↦
            rw (replay-append unit (skipped width c) rest c)
              (elim (loop-EndsFull f r next full.behind q) [
                | inl (none_left, same) ↦ inl (rw (none_left, same) full)
                | inr ends ↦ inl ends
              ])
        | inr (unwritten, behind) ↦ rw unwritten (elim (loop-EndsFull f c next behind q) [
          | inl (none_left, same) ↦ inr (rw none_left refl, same, behind)
          | inr ends ↦ inl ends
        ])
      ])

  not-misplaced-room :
      (c : Cursor)
      → c.offset ≤ c.end
      → ¬ IsMisplaced unit width off c
      → c.end ≤ off
      → c.end < c.offset + width
      → off + width ≤ c.end + unit
      → (off ≡ c.end) ⊎ (c.end < c.offset + (off - c.end))
  not-misplaced-room c h well more small fin = ground arith

  advance-replay :
      (f : ℕ) (c : Cursor) {pads : List Pad} {p : Cursor}
      → c.offset ≤ c.end
      → c.offset ≤ off
      → ¬ IsMisplaced unit width off c
      → advance f width unit off c ≡ ok (pads, p)
      → off + width ≤ p.end
      → allocate unit width (replay unit (pads ++ difference off p) c)
        ≡ (off, record { offset = off + width; end = p.end })
  advance-replay zero c h k well e fin = absurd (no_fuel width unit off c e)
  advance-replay (suc f) c {pads} {p} h k well e fin =
      rw (replay-append unit pads (difference off p) c) (elim (Bool-cases (ltb off c.end)) [
        | inl done ↦
            let (a, b) = advance-done (suc f) width unit off c (ltb→lt off c.end done) e in
            rw (a, b) (finish-same c k (rw b at fin))
        | inr more ↦
            let past = ltb→le off c.end more in
            let (low, _) = advance_bounds (suc f) width unit off c k e in
            elim (advance-EndsBehind f c h past e) [
              | inl full ↦ finish-full _ p full low fin
              | inr (same, next, behind) ↦
                  let fin' = rw next at fin in
                  rw (same, next)
                    (finish-new c (next_object unit c) behind past fin'
                      (not-misplaced-room c h well past behind.small fin'))
            ]
      ])

-- Where the generated padding puts a bitfield. The field starts at or after the cursor, in data
-- objects that hold its width, and ends in the one where it starts. Then a reader of the padding and
-- the field has the field at its offset, and stands where the generator stands, unless the
-- generator left an object with too little room for the field and the padding of the next object
-- fits into that room.
pub place_bits-replay :
    (width unit off : ℕ) (c : Cursor) (pads : List Pad) (c' : Cursor)
    → 0 < width
    → width ≤ unit
    → c.offset ≤ c.end
    → c.offset ≤ off
    → ¬ IsMisplaced unit width off c
    → place_bits width unit off c ≡ ok (pads, c')
    → c'.offset ≤ c'.end
    → allocate unit width (replay unit pads c) ≡ (off, c')
unfolding place_bits
place_bits-replay width unit off c pads c' w fits inside ahead well e fin =
    let (before, p, a) = advance_total (off + 2) width unit off c (omega arith) (omega arith) in
    let q : ok (before ++ difference off p, record { offset = off + width; end = p.end })
        ≡ ok (pads, c') =
      rw a at e in
    let pads_eq : before ++ difference off p ≡ pads = cc in
    let end_eq : c' ≡ record { offset = off + width; end = p.end } = cc in
    rw (← pads_eq, end_eq)
      (advance-replay unit width off w fits (off + 2) c inside ahead well a (rw end_eq at fin))
