-- ===== src/Run.antt =====
-- CTypeGenRun.py: the checks that a generated module makes of its own classes.
pub mod Pointers
pub mod Passing
pub mod Offsets
mod Examples
use ctypegen.Base.{
  ℕ, zero, suc, ◌%◌, List, [], ◌∷◌, ◌++◌, Bool, true, false, not, ◌&&◌, ◌||◌, Option, none, some,
  Text, text_mem, if◌then◌else◌, ◌==◌,
}
use ctypegen.Dwarf.{Result, ok, err, out_of_fuel, ◌>>=◌}
use ctypegen.Layout.Offsets.{Slot, padding, known, unknown}

-- One tuple of `_fields_`: the name, the class of the type, and `getattr( t, name ).offset`.
pub record Field : Type 0 where
  pub name : Text
  pub type : ℕ
  pub offset : ℕ

-- The attribute `allow_unaligned`: all fields, or those of a list, which is empty by default.
pub data Allowed : Type 0 where
  everything : Allowed
  only : List Text → Allowed

-- A class as ctypes presents it. `fields` and `offsets` are none where the class has no `_fields_` or
-- `_ctypegen_offsets`, and `native_size` where it has no `_ctypegen_have_definition`.
pub record Class : Type 0 where
  pub name : Text
  pub is_pointer : Bool
  pub fields : Option (List Field)
  pub alignment : ℕ
  pub size : ℕ
  pub allow_unaligned : Allowed
  pub native_size : Option ℕ
  pub offsets : Option (List Slot)

abbrev pub Classes : Type 0
Classes = ℕ → Class

-- `hasPointersMemo`
abbrev pub Memo : Type 0
Memo = List (ℕ × Bool)

-- The texts of `addError`, by their contents.
pub data CheckError : Type 0 where
  unaligned_pointer : (field class : Text) (offset misaligned : ℕ) → CheckError
  size_mismatch : (class : Text) (size native : ℕ) → CheckError
  offset_mismatch : (field class : Text) (offset native : ℕ) → CheckError

unfoldable pub recall : ℕ → Memo → Option Bool
recall t [] = none
recall t ((s, b) ∷ memo) = if s == t then some b else recall t memo

-- The `for` loop of `hasPointers`, with the call that it makes.
unfoldable pub any_pointers :
    (ℕ → Memo → Result (Bool × Memo)) → List Field → Memo → Result (Bool × Memo)
any_pointers f [] memo = ok (false, memo)
any_pointers f (x ∷ xs) memo = do
  (found, memo') ← f x.type memo
  let rest = any_pointers f xs memo'
  if found then ok (true, memo') else rest

module _ (c : Classes) where
  -- The body of `hasPointers` behind the look at the memo.
  unfoldable pub inspect : (ℕ → Memo → Result (Bool × Memo)) → ℕ → Memo → Result (Bool × Memo)
  inspect f t memo =
      let in_fields : Result (Bool × Memo) = elim ((c t).fields) [
        | none ↦ ok (false, memo)
        | some xs ↦ any_pointers f xs memo
      ] in
      if (c t).is_pointer then ok (true, memo) else in_fields

  -- `hasPointers`
  unfoldable pub has_pointers : ℕ → ℕ → Memo → Result (Bool × Memo)
  has_pointers zero t memo = err out_of_fuel
  has_pointers (suc f) t memo =
      let fresh = (do (rv, memo') ← inspect (has_pointers f) t memo; ok (rv, (t, rv) ∷ memo')) in
      elim (recall t memo) [ some b ↦ ok (b, memo) | none ↦ fresh ]

  abbrev pub is_aligned : Field → Bool
  is_aligned x = (c x.type).alignment == 0 || (x.offset % (c x.type).alignment == 0)

  abbrev pub unaligned_error : ℕ → Field → CheckError
  unaligned_error t x =
      unaligned_pointer x.name (c t).name x.offset (x.offset % (c x.type).alignment)

  -- What is reported of a field that is not aligned, once its pointers are known.
  abbrev pub misaligned : ℕ → List Text → Field → Bool → List CheckError
  misaligned t allowed x pointers =
      if pointers && not (text_mem x.name allowed) then unaligned_error t x ∷ [] else []

  -- One round of the loop of `checkUnalignedPtrs`.
  unfoldable pub check_field : ℕ → ℕ → List Text → Field → Memo → Result (List CheckError × Memo)
  check_field f t allowed x memo =
      let inspected = (do
        (pointers, memo') ← has_pointers f x.type memo
        ok (misaligned t allowed x pointers, memo')) in
      if is_aligned x then ok ([], memo) else inspected

  unfoldable pub check_fields :
      ℕ → ℕ → List Text → List Field → Memo → Result (List CheckError × Memo)
  check_fields f t allowed [] memo = ok ([], memo)
  check_fields f t allowed (x ∷ xs) memo = do
    (new, memo') ← check_field f t allowed x memo
    (more, memo'') ← check_fields f t allowed xs memo'
    ok (new ++ more, memo'')

  -- `checkUnalignedPtrs`, from `_fields_` and `allow_unaligned`: the errors that it adds.
  unfoldable pub check_allowed :
      ℕ → ℕ → Option (List Field) → Allowed → Memo → Result (List CheckError × Memo)
  check_allowed f t (some xs) (only allowed) memo = check_fields f t allowed xs memo
  check_allowed f t (some xs) everything memo = ok ([], memo)
  check_allowed f t none allow memo = ok ([], memo)

  unfoldable pub check_unaligned_ptrs : ℕ → ℕ → Memo → Result (List CheckError × Memo)
  check_unaligned_ptrs f t memo = check_allowed f t (c t).fields (c t).allow_unaligned memo

  unfoldable pub compare_size : ℕ → ℕ → List CheckError
  compare_size t native =
      if (c t).size == native
      then []
      else if ((c t).size == 0) && (native == 1)
      then []
      else size_mismatch (c t).name (c t).size native ∷ []

  -- `checkSize`
  unfoldable pub check_size : ℕ → List CheckError
  check_size t = elim ((c t).native_size) [ none ↦ [] | some native ↦ compare_size t native ]

  -- One round of `checkOffsets`: None and -1 are passed over.
  unfoldable pub check_offset : ℕ → Field → Slot → List CheckError
  check_offset t x (known o) =
      if x.offset == o then [] else offset_mismatch x.name (c t).name x.offset o ∷ []
  check_offset t x padding = []
  check_offset t x unknown = []

  -- The loop over `zip( cls._fields_, cls._ctypegen_offsets )`.
  unfoldable pub check_zip : ℕ → List Field → List Slot → List CheckError
  check_zip t [] slots = []
  check_zip t (x ∷ xs) [] = []
  check_zip t (x ∷ xs) (s ∷ slots) = check_offset t x s ++ check_zip t xs slots

  -- `checkOffsets`, from `_fields_` and `_ctypegen_offsets`.
  unfoldable pub compare_offsets : ℕ → Option (List Field) → Option (List Slot) → List CheckError
  compare_offsets t (some xs) (some slots) = check_zip t xs slots
  compare_offsets t (some xs) none = []
  compare_offsets t none slots = []

  unfoldable pub check_offsets : ℕ → List CheckError
  check_offsets t = compare_offsets t (c t).fields (c t).offsets

  -- `test_class`
  unfoldable pub test_class : ℕ → ℕ → Memo → Result (List CheckError × Memo)
  test_class f t memo = do
    (unaligned, memo') ← check_unaligned_ptrs f t memo
    ok (check_offsets t ++ (check_size t ++ unaligned), memo')

  -- The loop of `test_classes`, with `errors` and the memo; it raises if there are errors.
  unfoldable pub test_all : ℕ → List ℕ → Memo → Result (List CheckError × Memo)
  test_all f [] memo = ok ([], memo)
  test_all f (t ∷ ts) memo = do
    (new, memo') ← test_class f t memo
    (more, memo'') ← test_all f ts memo'
    ok (new ++ more, memo'')

-- `test_classes`: the classes pass, or an exception carries the errors.
pub data Verdict : Type 0 where
  passed : Verdict
  raised : List CheckError → Verdict

unfoldable pub verdict : List CheckError → Verdict
verdict [] = passed
verdict (e ∷ es) = raised (e ∷ es)

-- `test_classes`, with `errors` and the memo as earlier calls have left them.
unfoldable pub test_classes :
    Classes → ℕ → List ℕ → List CheckError → Memo → Result (Verdict × Memo)
test_classes c f ts before memo = do
  (errors, memo') ← test_all c f ts memo
  ok (verdict (before ++ errors), memo')
