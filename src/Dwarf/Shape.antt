-- ===== src/Dwarf/Shape.antt =====
-- CTypeGen/__init__.py, `deref`, `die_size`, `die_bit_offset`, `getArrayDimensions`: what the generator computes from an
-- entry and those that it refers to. A chain of types takes one unit of fuel for each entry.
use ctypegen.Base.{
  ℕ, zero, suc, ◌+◌, ◌-◌, ◌*◌, List, [], ◌∷◌, ◌++◌, Bool, not, Option, none, some, is_some,
  if◌then◌else◌, leb,
}
use mathlib.Core.List.{reverse, foldl}
use ctypegen.Dwarf.{
  Dwarf, Bound, minus_one, at, is_qualifier, is_subrange, is_pointer, is_array, Result, ok, err,
  out_of_fuel, below_start, number, ◌>>=◌,
}

module _ (d : Dwarf) where
  -- `deref`: the `while` loop.
  unfoldable pub deref : ℕ → Option ℕ → Result (Option ℕ)
  deref zero h = err out_of_fuel
  deref (suc f) none = ok none
  deref (suc f) (some h) =
      let rest = deref f (d h).type in if is_qualifier (d h).tag then rest else ok (some h)

  -- `isVoid`
  unfoldable pub is_void : ℕ → Option ℕ → Result Bool
  is_void f h = do r ← deref f h; ok (not (is_some r))

-- What one subrange adds to the dimensions, from its count and its upper bound.
unfoldable pub dimension : Option ℕ → Option Bound → ℕ
dimension (some n) upper = n
dimension none (some (at n)) = n + 1
dimension none (some minus_one) = 0
dimension none none = 0

module _ (d : Dwarf) where
  -- The loop of `getArrayDimensions`, over the children reversed.
  unfoldable pub dimensions_of : List ℕ → List ℕ
  dimensions_of [] = []
  dimensions_of (c ∷ cs) =
      (if is_subrange (d c).tag then dimension (d c).count (d c).upper_bound ∷ [] else [])
      ++ dimensions_of cs

  -- `getArrayDimensions`
  unfoldable pub get_array_dimensions : ℕ → List ℕ
  get_array_dimensions h = dimensions_of (reverse (d h).children)

-- `functools.reduce( operator.mul, dims, baseSize )`
unfoldable pub product : ℕ → List ℕ → ℕ
product size dims = foldl ◌*◌ size dims

module _ (d : Dwarf) (pointer_size : ℕ) where
  -- The last lines of `die_size`, once the size of the base type is known.
  unfoldable pub sized : ℕ → ℕ → ℕ
  sized h base = if is_array (d h).tag then product base (get_array_dimensions d h) else base

  -- `die_size`; `pointer_size` is `ctypes.sizeof( ctypes.c_void_p )`.
  unfoldable pub die_size : ℕ → Option ℕ → Result ℕ
  die_size zero h = err out_of_fuel
  die_size (suc f) none = ok 0
  die_size (suc f) (some h) =
      let rest = die_size f (d h).type >>= λ base. ok (sized h base) in
      elim ((d h).byte_size) [
        | some n ↦ ok n
        | none ↦ if is_pointer (d h).tag then ok pointer_size else rest
      ]

  -- The sum in `die_bit_offset`, from the location, the size, the width and `DW_AT_bit_offset`.
  unfoldable pub from_msb : ℕ → ℕ → ℕ → ℕ → Result (Option ℕ)
  from_msb location size width offset =
      if leb (width + offset) (location * 8 + size * 8)
      then ok (some (location * 8 + size * 8 - width - offset))
      else err below_start

  -- `die_bit_offset`
  unfoldable pub die_bit_offset : ℕ → ℕ → Result (Option ℕ)
  die_bit_offset f h =
      let older : Result (Option ℕ) = elim ((d h).bit_offset) [
        | none ↦ ok none
        | some offset ↦ do
          size ← die_size f (some h)
          location ← number (d h).data_member_location
          width ← number (d h).bit_size
          from_msb location size width offset
      ] in
      elim ((d h).data_bit_offset) [ some n ↦ ok (some n) | none ↦ older ]
