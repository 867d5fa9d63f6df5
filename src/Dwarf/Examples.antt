-- ===== src/Dwarf/Examples.antt =====
-- A structure of bitfields, a typedef of a constant integer and an array, and what the generator
-- computes from them.
use ctypegen.Base.{
  ℕ, zero, suc, List, [], ◌∷◌, true, false, Option, none, some, ◌≡◌, ◌*◌, refl, arith,
}
use ctypegen.Dwarf.{
  Die, Dwarf, Tag, other, typedef, const_type, base_type, array_type, subrange_type, Bound, at, ok,
}
use ctypegen.Dwarf.Shape.{die_size, sized, product, get_array_dimensions, dimensions_of, dimension}
use ctypegen.Dwarf.Chains.{IsRanked, Strips, die_size-deref}
use ctypegen.Dwarf.Sizes.{Way, HasSize, all_copies, die_size-all_copies}

abbrev entry : Tag → Option ℕ → Option ℕ → List ℕ → Die
entry tag type size children = record {
  tag = tag;
  name = none;
  fullname = [];
  type = type;
  children = children;
  byte_size = size;
  bit_size = none;
  bit_offset = none;
  data_bit_offset = none;
  data_member_location = none;
  count = none;
  upper_bound = some (at 2);
  external = false;
  declaration = false;
}

-- 3 is a typedef of 2, a constant 1, which is an int; 5 is an array of 3 elements of type 3.
abbrev types : Dwarf
types (suc zero) = entry base_type none (some 4) []
types (suc (suc zero)) = entry const_type (some 1) none []
types (suc (suc (suc zero))) = entry typedef (some 2) none []
types (suc (suc (suc (suc zero)))) = entry subrange_type none none []
types (suc (suc (suc (suc (suc zero))))) = entry array_type (some 3) none (4 ∷ [])
types _ = entry (other 0) none none []

types-IsRanked : IsRanked types (λ h. h)
types-IsRanked zero k e = ground arith
types-IsRanked (suc zero) k e = ground arith
types-IsRanked (suc (suc zero)) k e = ground arith
types-IsRanked (suc (suc (suc zero))) k e = ground arith
types-IsRanked (suc (suc (suc (suc zero)))) k e = ground arith
types-IsRanked (suc (suc (suc (suc (suc zero))))) k e = ground arith
types-IsRanked (suc (suc (suc (suc (suc (suc h)))))) k e = ground arith

array_run : die_size types 8 9 (some 5) ≡ ok 12
unfolding die_size sized product get_array_dimensions dimensions_of dimension
array_run = refl

types-unsized :
    (h : ℕ) → ctypegen.Dwarf.is_qualifier (types h).tag ≡ true → (types h).byte_size ≡ none
types-unsized zero q = ground arith
types-unsized (suc zero) q = ground arith
types-unsized (suc (suc zero)) q = ground arith
types-unsized (suc (suc (suc zero))) q = ground arith
types-unsized (suc (suc (suc (suc zero)))) q = ground arith
types-unsized (suc (suc (suc (suc (suc zero))))) q = ground arith
types-unsized (suc (suc (suc (suc (suc (suc h)))))) q = ground arith

die_size-all_copies_example :
    (hs : List ℕ) × (last : Option ℕ) × (n : ℕ) × Way types (some 5) hs last
    × HasSize types 8 last n
    × (die_size types 8 9 (some 5) ≡ ok (all_copies types hs * n))
die_size-all_copies_example =
    die_size-all_copies types (λ h. h) types-IsRanked 8 9 (some 5) (omega arith)

die_size-deref_example :
    (n : ℕ) × (die_size types 8 5 (some 3) ≡ ok n) × (die_size types 8 5 (some 1) ≡ ok n)
die_size-deref_example =
    die_size-deref types (λ h. h) types-IsRanked 8 types-unsized 5
      (Strips.strip refl (Strips.strip refl (Strips.stop refl))) (omega arith)
