-- ===== src/Primitive/Examples.antt =====
-- A complex number under a name of its own.
use ctypegen.Base.{
  ℕ, zero, suc, false, none, some, codes, text_eq, ◌≡◌, refl, arith, lookup, decimal,
}
use ctypegen.Primitive.{
  complex_float, Entry, aligned, find_row, row_alignment, chosen, align, from_entry,
  alignment_from_encoding, named, named_alignment, base_type_alignment, size_text, ctype_or_bytes,
  primitive_ctype,
}
use ctypegen.Primitive.Divides.{
  IsFitting, IsBounded, IsRanked, alignment_from_encoding-IsFitting, base_type_alignment-IsBounded,
}

abbrev complex_entries : ℕ → Entry
complex_entries zero = record {
  name = some (codes "complex_t");
  encoding = none;
  byte_size = none;
  type = some 1;
}
complex_entries (suc h) = record {
  name = some (codes "complex float");
  encoding = some complex_float;
  byte_size = some 8;
  type = none;
}

abbrev complex_rank : ℕ → ℕ
complex_rank zero = 1
complex_rank (suc h) = 0

complex-IsRanked : IsRanked complex_entries complex_rank
complex-IsRanked zero zero e = ground arith
complex-IsRanked zero (suc k) e = omega arith
complex-IsRanked (suc h) k e = cc

complex_run : base_type_alignment complex_entries false 3 0 ≡ aligned 4
unfolding base_type_alignment named named_alignment alignment_from_encoding from_entry find_row
    row_alignment chosen align lookup text_eq
complex_run = refl

ctype_run : primitive_ctype (complex_entries 1) ≡ codes "(c_byte * 8)"
unfolding primitive_ctype ctype_or_bytes size_text named lookup text_eq decimal
ctype_run = refl

alignment_from_encoding-IsFitting_example :
    IsFitting complex_entries 0 (alignment_from_encoding complex_entries false 3 (some 0))
alignment_from_encoding-IsFitting_example =
    alignment_from_encoding-IsFitting complex_entries complex_rank false 3 0 complex-IsRanked
      (omega arith)

base_type_alignment-IsBounded_example : IsBounded (base_type_alignment complex_entries false 3 0)
base_type_alignment-IsBounded_example =
    base_type_alignment-IsBounded complex_entries complex_rank false 3 0 complex-IsRanked
      (omega arith)
