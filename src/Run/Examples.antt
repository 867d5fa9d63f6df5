-- ===== src/Run/Examples.antt =====
-- A structure of an int and a pointer, and the checks on it.
use ctypegen.Base.{
  ℕ, zero, suc, List, [], ◌∷◌, Bool, true, false, none, some, codes, Text, ◌≡◌, refl, ◌↔◌, arith,
}
use ctypegen.Dwarf.{ok}
use ctypegen.Layout.Offsets.{known}
use ctypegen.Run.{
  Field, Class, Classes, Memo, only, CheckError, recall, has_pointers, inspect, any_pointers,
  Verdict, passed, test_classes, test_all, test_class, check_unaligned_ptrs, check_allowed,
  check_fields, check_field, check_offsets, compare_offsets, check_zip, check_offset, check_size,
  compare_size, verdict,
}
use ctypegen.Run.Pointers.{HasPointer, Answers, IsSound, IsNested, has_pointers_lem}
use ctypegen.Layout.Examples.{input, result, names, later, torture_added, not_empty}
use ctypegen.Layout.Offsets.{Last, offsets, member_slots, is_recorded, is_new}
use ctypegen.Run.Offsets.{AllPlacedAs, check_offsets-AllPlacedAs_iff}
use ctypegen.Run.Passing.{AllConsistent, test_classes-passed_iff}

abbrev scalar : Text → Bool → ℕ → Class
scalar name is_pointer size = record {
  name = name;
  is_pointer = is_pointer;
  fields = none;
  alignment = size;
  size = size;
  allow_unaligned = only [];
  native_size = none;
  offsets = none;
}

abbrev place : Text → ℕ → ℕ → Field
place name type offset = record { name = name; type = type; offset = offset }

-- 0 is c_int, 1 a pointer, 2 the structure.
abbrev classes : Classes
classes zero = scalar (codes "c_int") false 4
classes (suc zero) = scalar (codes "LP_c_int") true 8
classes (suc (suc zero)) = record {
  name = codes "S";
  is_pointer = false;
  fields = some (place (codes "a") 0 0 ∷ place (codes "p") 1 8 ∷ []);
  alignment = 8;
  size = 16;
  allow_unaligned = only [];
  native_size = some 16;
  offsets = some (known 0 ∷ known 8 ∷ []);
}
classes _ = scalar [] false 1

classes-IsNested : IsNested classes (λ t. t)
classes-IsNested zero xs e = absurd (cc)
classes-IsNested (suc zero) xs e = absurd (cc)
classes-IsNested (suc (suc zero)) xs e =
    let same : place (codes "a") 0 0 ∷ place (codes "p") 1 8 ∷ [] ≡ xs = cc in
    rw (← same) (omega arith)
classes-IsNested (suc (suc (suc t))) xs e = absurd (cc)

nothing-IsSound : IsSound classes []
unfolding recall
nothing-IsSound t b e = absurd (cc)

has_pointers_lem_example :
    (r : Bool × Memo) × (has_pointers classes 3 2 [] ≡ ok r)
    × (Answers (HasPointer classes 2) r.0 × IsSound classes r.1)
has_pointers_lem_example =
    has_pointers_lem classes (λ t. t) 3 2 [] classes-IsNested (omega arith) nothing-IsSound

test_classes-passed_iff_example :
    (r : Verdict × Memo) × (test_classes classes 3 (2 ∷ []) [] [] ≡ ok r)
    × ((r.0 ≡ passed) ↔ ((◌≡◌ {A = List CheckError} [] []) × AllConsistent classes (2 ∷ [])))
test_classes-passed_iff_example =
    test_classes-passed_iff classes (λ t. t) 3 (2 ∷ []) [] [] classes-IsNested (omega arith)
      nothing-IsSound

program : Unit {0}
unfolding test_classes test_all test_class check_unaligned_ptrs check_allowed check_fields
    check_field check_offsets compare_offsets check_zip check_offset check_size compare_size verdict
    has_pointers inspect any_pointers recall
program = tt

passing_run : test_classes classes 3 (2 ∷ []) [] [] ≡ ok (passed, [])
unfolding program
passing_run = refl

pointer_run : has_pointers classes 3 2 [] ≡ ok (true, (2, true) ∷ (1, true) ∷ (0, false) ∷ [])
unfolding program
pointer_run = refl

-- The class for `torture1` of Layout/Examples, whose bitfields have no location and whose last field lies at 8.
abbrev torture_fields : List Field
torture_fields =
    place (codes "a_prepad_32") 0 0
    ∷ place (codes "a") 0 0
    ∷ place (codes "b") 0 4
    ∷ place (codes "c") 0 4
    ∷ place (codes "j") 0 8
    ∷ []

abbrev torture_classes : Classes
torture_classes t = record (scalar (codes "torture1") false 12) {
  fields = some torture_fields;
  offsets = some (offsets input (names (codes "a") 2 ∷ later) result.pads Last.start);
}

torture_offsets_run : check_offsets torture_classes 0 ≡ []
unfolding check_offsets compare_offsets check_zip check_offset offsets member_slots is_recorded
    is_new
torture_offsets_run = refl

check_offsets-AllPlacedAs_iff_example :
    (check_offsets torture_classes 0 ≡ [])
    ↔ AllPlacedAs input (names (codes "a") 2 ∷ later) result.pads Last.start torture_fields
check_offsets-AllPlacedAs_iff_example =
    check_offsets-AllPlacedAs_iff input (names (codes "a") 2 ∷ later) none result torture_classes 0
      torture_fields
      (not_empty 2 refl, (not_empty 3 refl, (not_empty 4 refl, (not_empty 5 refl, tt))))
      torture_added refl refl (tt, (refl, (refl, (refl, (refl, tt)))))
