-- ===== src/Render/Examples.antt =====
-- A table of strings, what its rendering is, and its size and alignment.
use ctypegen.Base.{
  ℕ, zero, suc, List, [], ◌∷◌, false, Option, none, some, codes, text_eq, decimal, lookup, ◌≡◌, ◌≢◌,
  refl, subst, arith,
}
use ctypegen.Dwarf.{
  Die, Dwarf, Tag, typedef, const_type, base_type, array_type, subrange_type, pointer_type, at, ok,
  out_of_fuel,
}
use ctypegen.Dwarf.Chains.{IsRanked}
use ctypegen.Dwarf.Ensures.{Ensures}
use ctypegen.Dwarf.Shape.{is_void, deref, die_size, get_array_dimensions, dimensions_of, dimension}
use ctypegen.Examine.Find.{
  Kind, typedef_kind, pointer_kind, primitive_kind, array_kind, const_kind, type_from_tag,
}
use ctypegen.Primitive.{Entry, primitive_ctype, ctype_or_bytes, named}
use ctypegen.Primitive.Divides as Divides
use ctypegen.Primitive.Divides.{is_alignment}
use ctypegen.Render.{
  Context, on_base, times, times_text, array_size, size_of, size, alignment, pointer_text,
  const_text, pointer_to, array_text, ctype_of, ctype,
}
use ctypegen.Render.Sizes.{IsDirect, IsUnsized, size-Agrees}
use ctypegen.Render.Alignments.{IsOwn, Behind, AlignedAs, alignment-Behind}
use ctypegen.Render.Aliases.{Leads, IsNoAlias, deref-Leads}
use ctypegen.Dwarf.Shape.{deref}

abbrev entry : Tag → Option ℕ → Option ℕ → List ℕ → Die
entry tag type size children = record {
  tag = tag;
  name = some (codes "char");
  fullname = [];
  type = type;
  children = children;
  byte_size = size;
  bit_size = none;
  bit_offset = none;
  data_bit_offset = none;
  data_member_location = none;
  count = none;
  upper_bound = some (at 2);
  external = false;
  declaration = false;
}

-- 6 is a typedef of 5, an array of 3 pointers 3 to constant 2 characters 1; 4 is its range. Others are
-- pointers to void.
abbrev strings : Dwarf
strings (suc zero) = entry base_type none (some 1) []
strings (suc (suc zero)) = entry const_type (some 1) none []
strings (suc (suc (suc zero))) = entry pointer_type (some 2) (some 8) []
strings (suc (suc (suc (suc zero)))) = entry subrange_type none none []
strings (suc (suc (suc (suc (suc zero))))) = entry array_type (some 3) none (4 ∷ [])
strings (suc (suc (suc (suc (suc (suc zero)))))) = entry typedef (some 5) none []
strings _ = entry pointer_type none (some 8) []

abbrev kinds : ℕ → Kind
kinds (suc zero) = primitive_kind
kinds (suc (suc zero)) = const_kind
kinds (suc (suc (suc (suc (suc zero))))) = array_kind
kinds (suc (suc (suc (suc (suc (suc zero)))))) = typedef_kind
kinds _ = pointer_kind

abbrev character : Entry
character = record { name = some (codes "char"); encoding = none; byte_size = some 1; type = none }

abbrev context : Context
context = record {
  dies = strings;
  object = λ h. record {
    die = h;
    definition = h;
    kind = kinds h;
    is_external = false;
    py_name = codes "strings";
  };
  entries = λ h. character;
  pointer_size = 8;
  member_alignment = λ h. 1;
}

ctype_run : ctype context 9 5 ≡ ok (codes "c_char_p * 3")
unfolding ctype ctype_of array_text on_base times_text pointer_to pointer_text const_text
    primitive_ctype ctype_or_bytes named is_void deref get_array_dimensions dimensions_of dimension
    text_eq decimal lookup
ctype_run = refl

void_run : ctype context 9 7 ≡ ok (codes "c_void_p")
unfolding ctype ctype_of pointer_to is_void deref
void_run = refl

typedef_run : ctype context 9 6 ≡ ok (codes "strings")
unfolding ctype ctype_of
typedef_run = refl

size_run : size context 9 6 ≡ ok (some 24)
unfolding size size_of array_size on_base times get_array_dimensions dimensions_of dimension
size_run = refl

strings-IsRanked : IsRanked strings (λ h. h)
strings-IsRanked zero k e = ground arith
strings-IsRanked (suc zero) k e = ground arith
strings-IsRanked (suc (suc zero)) k e = ground arith
strings-IsRanked (suc (suc (suc zero))) k e = ground arith
strings-IsRanked (suc (suc (suc (suc zero)))) k e = ground arith
strings-IsRanked (suc (suc (suc (suc (suc zero))))) k e = ground arith
strings-IsRanked (suc (suc (suc (suc (suc (suc zero)))))) k e = ground arith
strings-IsRanked (suc (suc (suc (suc (suc (suc (suc h))))))) k e = ground arith

strings-IsUnsized : IsUnsized context
strings-IsUnsized zero e = ground arith
strings-IsUnsized (suc zero) e = ground arith
strings-IsUnsized (suc (suc zero)) e = ground arith
strings-IsUnsized (suc (suc (suc zero))) e = ground arith
strings-IsUnsized (suc (suc (suc (suc zero)))) e = ground arith
strings-IsUnsized (suc (suc (suc (suc (suc zero))))) e = ground arith
strings-IsUnsized (suc (suc (suc (suc (suc (suc zero)))))) e = ground arith
strings-IsUnsized (suc (suc (suc (suc (suc (suc (suc h))))))) e = ground arith

abbrev HasKind : ℕ → Type 0
HasKind h = type_from_tag (strings h).tag ≡ some (kinds h)

abbrev IsClassed : ℕ → Type 0
IsClassed h = (b : ℕ) → (strings h).type ≡ some b → HasKind b

referred-HasKind : (k b : ℕ) → HasKind k → some k ≡ some b → HasKind b
referred-HasKind k b c e = subst HasKind (cc) c

strings-IsClassed : (h : ℕ) → IsClassed h
unfolding type_from_tag
strings-IsClassed zero b e = cc
strings-IsClassed (suc zero) b e = cc
strings-IsClassed (suc (suc zero)) b e = referred-HasKind 1 b refl e
strings-IsClassed (suc (suc (suc zero))) b e = referred-HasKind 2 b refl e
strings-IsClassed (suc (suc (suc (suc zero)))) b e = cc
strings-IsClassed (suc (suc (suc (suc (suc zero))))) b e = referred-HasKind 3 b refl e
strings-IsClassed (suc (suc (suc (suc (suc (suc zero)))))) b e = referred-HasKind 5 b refl e
strings-IsClassed (suc (suc (suc (suc (suc (suc (suc h))))))) b e = cc

strings-IsDirect : IsDirect context
strings-IsDirect = (λ h. refl, strings-IsClassed)

class_of_typedef : type_from_tag typedef ≡ some typedef_kind
unfolding type_from_tag
class_of_typedef = refl

size-Agrees_example :
    Ensures
      (λ e. e ≢ out_of_fuel)
      (λ s. (n : ℕ) → s ≡ some n → die_size strings 8 7 (some 6) ≡ ok n)
      (size context 7 6)
size-Agrees_example =
    size-Agrees context (λ h. h) strings-IsDirect strings-IsUnsized strings-IsRanked 7 6
      class_of_typedef (omega arith)

entries-IsRanked : Divides.IsRanked (λ h. character) (λ h. h)
entries-IsRanked h k e = cc

context-IsOwn : IsOwn context
context-IsOwn h = (refl, refl)

-- Behind the typedef and the array are pointers.
alignment-Behind_example :
    (last : Option ℕ) × Behind context 6 last
    × AlignedAs context
        (λ h. h)
        context-IsOwn
        strings-IsRanked
        entries-IsRanked
        false
        last
        (alignment context false 9 6)
alignment-Behind_example =
    alignment-Behind context (λ h. h) context-IsOwn strings-IsRanked entries-IsRanked false 9 6
      (omega arith)

-- The typedef of an array is stripped, and the array is not.
deref-Leads_example :
    (r : Option ℕ) × (deref strings 8 (some 6) ≡ ok r)
    × Leads strings (some 6) r
    × IsNoAlias strings r
deref-Leads_example = deref-Leads strings (λ h. h) 8 (some 6) strings-IsRanked (omega arith)
