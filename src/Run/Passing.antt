-- ===== src/Run/Passing.antt =====
-- When the checks of a generated module pass.
use ctypegen.Base.{
  ℕ, ◌≤◌, ◌<◌, ◌%◌, List, [], ◌∷◌, ◌++◌, Bool, true, false, Option, none, some, ◌≡◌, refl, arith,
  ◌↔◌, ◌⊎◌, inl, inr, Bool-cases, text_mem, Text,
}
use ctypegen.Dwarf.{ok}
use ctypegen.Dwarf.Ensures.{Never, Ensures-Never, Ensures, returns, Ensures-bind, Ensures-if}
use ctypegen.Layout.Offsets.{Slot, padding, known, unknown}
use ctypegen.Run.{
  Field, Classes, Allowed, everything, only, Memo, CheckError, check_field, check_fields,
  check_unaligned_ptrs, compare_size, check_size, check_offset, check_zip, compare_offsets,
  check_allowed, check_offsets, test_class, test_all, Verdict, passed, verdict, test_classes,
  is_aligned, misaligned,
}
use ctypegen.Run.Pointers.{HasPointer, Answers, IsSound, AllBelow, IsNested, has_pointers-Ensures}

-- The offset that the debug information gives, where it gives one.
abbrev pub Agrees : Field → Slot → Type 0
Agrees x (known o) = x.offset ≡ o
Agrees x padding = Unit
Agrees x unknown = Unit

abbrev pub AllAgree : List Field → List Slot → Type 0
AllAgree [] slots = Unit
AllAgree (x ∷ xs) [] = Unit
AllAgree (x ∷ xs) (s ∷ slots) = Agrees x s × AllAgree xs slots

abbrev pub OffsetsAgree : Option (List Field) → Option (List Slot) → Type 0
OffsetsAgree none slots = Unit
OffsetsAgree (some xs) none = Unit
OffsetsAgree (some xs) (some slots) = AllAgree xs slots

-- ctypes gives an empty class no size, C++ gives it one byte.
abbrev pub SizeAgrees : ℕ → Option ℕ → Type 0
SizeAgrees size none = Unit
SizeAgrees size (some native) = (size ≡ native) ⊎ ((size ≡ 0) × (native ≡ 1))

module _ (c : Classes) where
  -- A field lies at a multiple of its alignment, is allowed not to, or holds no pointer.
  abbrev pub IsPlaced : List Text → Field → Type 0
  IsPlaced allowed x =
      (((c x.type).alignment ≡ 0) ⊎ (x.offset % (c x.type).alignment ≡ 0))
      ⊎ ((text_mem x.name allowed ≡ true) ⊎ (¬ HasPointer c x.type))

  abbrev pub AllPlaced : List Text → List Field → Type 0
  AllPlaced allowed [] = Unit
  AllPlaced allowed (x ∷ xs) = IsPlaced allowed x × AllPlaced allowed xs

  abbrev pub PointersAligned : Option (List Field) → Allowed → Type 0
  PointersAligned none allow = Unit
  PointersAligned (some xs) everything = Unit
  PointersAligned (some xs) (only allowed) = AllPlaced allowed xs

  -- The class agrees with the debug information that it was generated from.
  abbrev pub IsConsistent : ℕ → Type 0
  IsConsistent t =
      OffsetsAgree (c t).fields (c t).offsets
      × SizeAgrees (c t).size (c t).native_size
      × PointersAligned (c t).fields (c t).allow_unaligned

  abbrev pub AllConsistent : List ℕ → Type 0
  AllConsistent [] = Unit
  AllConsistent (t ∷ ts) = IsConsistent t × AllConsistent ts

-- The fuel covers the nesting of each class.
abbrev pub IsCovered : (ℕ → ℕ) → ℕ → List ℕ → Type 0
IsCovered rank f [] = Unit
IsCovered rank f (t ∷ ts) = (rank t ≤ f) × IsCovered rank f ts

-- No errors from two checks.
none_of_both :
    {P Q : Type 0} (xs ys : List CheckError)
    → (xs ≡ []) ↔ P
    → (ys ≡ []) ↔ Q
    → (xs ++ ys ≡ []) ↔ (P × Q)
none_of_both [] ys p q = (λ e. (p.0 refl, q.0 e), λ h. q.1 h.1)
none_of_both (x ∷ xs) ys p q = (λ e. cc, λ h. absurd (cc (p.1 h.0)))

module _ (c : Classes) where
  check_offset_iff : (t : ℕ) (x : Field) (s : Slot) → (check_offset c t x s ≡ []) ↔ Agrees x s
  unfolding check_offset
  check_offset_iff t x (known o) = ground arith
  check_offset_iff t x padding = (λ _. tt, λ _. refl)
  check_offset_iff t x unknown = (λ _. tt, λ _. refl)

  check_zip_iff :
      (t : ℕ) (xs : List Field) (slots : List Slot)
      → (check_zip c t xs slots ≡ []) ↔ AllAgree xs slots
  unfolding check_zip
  check_zip_iff t [] slots = (λ _. tt, λ _. refl)
  check_zip_iff t (x ∷ xs) [] = (λ _. tt, λ _. refl)
  check_zip_iff t (x ∷ xs) (s ∷ slots) =
      none_of_both (check_offset c t x s) _ (check_offset_iff t x s) (check_zip_iff t xs slots)

  pub compare_offsets_iff :
      (t : ℕ) (xs : Option (List Field)) (slots : Option (List Slot))
      → (compare_offsets c t xs slots ≡ []) ↔ OffsetsAgree xs slots
  unfolding compare_offsets
  compare_offsets_iff t (some xs) (some slots) = check_zip_iff t xs slots
  compare_offsets_iff t (some xs) none = (λ _. tt, λ _. refl)
  compare_offsets_iff t none slots = (λ _. tt, λ _. refl)

  check_size_iff : (t : ℕ) → (check_size c t ≡ []) ↔ SizeAgrees (c t).size (c t).native_size
  unfolding check_size compare_size
  check_size_iff t = ground arith

  is_aligned_iff :
      (x : Field)
      → (is_aligned c x ≡ true)
        ↔ (((c x.type).alignment ≡ 0) ⊎ (x.offset % (c x.type).alignment ≡ 0))
  is_aligned_iff x = ground arith

  -- The three checks of a class together.
  consistent :
      (t : ℕ) (unaligned : List CheckError)
      → (unaligned ≡ []) ↔ PointersAligned c (c t).fields (c t).allow_unaligned
      → (compare_offsets c t (c t).fields (c t).offsets ++ (check_size c t ++ unaligned) ≡ [])
        ↔ IsConsistent c t
  consistent t unaligned p =
      let rest = none_of_both (check_size c t) unaligned (check_size_iff t) p in
      let all =
        none_of_both (compare_offsets c t (c t).fields (c t).offsets) (check_size c t ++ unaligned)
          (compare_offsets_iff t (c t).fields (c t).offsets) rest in
      (λ e. let (o, (s, u)) = all.0 e in (o, s, u), λ h. all.1 (h.0, (h.1, h.2)))

  -- What a field with misaligned pointers reports.
  misaligned_iff :
      (t : ℕ) (allowed : List Text) (x : Field) (b : Bool)
      → is_aligned c x ≡ false
      → Answers (HasPointer c x.type) b
      → (misaligned c t allowed x b ≡ []) ↔ IsPlaced c allowed x
  misaligned_iff t allowed x false off a = (λ _. inr (inr a), λ _. refl)
  misaligned_iff t allowed x true off a = elim (Bool-cases (text_mem x.name allowed)) [
    | inl m ↦ (λ _. inr (inl m), λ _. rw m refl)
    | inr m ↦ (λ e. absurd (cc (rw m at e)), λ h. absurd (refuted m h))
  ]
    where
      refuted : text_mem x.name allowed ≡ false → IsPlaced c allowed x → ⊥
      refuted m (inl al) = cc ((is_aligned_iff x).1 al)
      refuted m (inr (inl m')) = cc
      refuted m (inr (inr n)) = n a

  abbrev Reports : Type 0 → List CheckError × Memo → Type 0
  Reports P (errors, memo) = ((errors ≡ []) ↔ P) × IsSound c memo

  module _ (rank : ℕ → ℕ) (nested : IsNested c rank) (f t : ℕ) (allowed : List Text) where
    check_field-Ensures :
        (x : Field) (memo : Memo)
        → rank x.type < f
        → IsSound c memo
        → Ensures Never (Reports (IsPlaced c allowed x)) (check_field c f t allowed x memo)
    unfolding check_field
    check_field-Ensures x memo h sound =
        Ensures-if (is_aligned c x)
          (λ e. returns ((λ _. inl ((is_aligned_iff x).0 e), λ _. refl), sound))
          (λ e.
            Ensures-bind (has_pointers-Ensures c rank nested f x.type memo h sound)
              λ (b, memo') p. returns (misaligned_iff t allowed x b e p.0, p.1))

    check_fields-Ensures :
        (xs : List Field) (memo : Memo)
        → AllBelow rank f xs
        → IsSound c memo
        → Ensures Never (Reports (AllPlaced c allowed xs)) (check_fields c f t allowed xs memo)
    unfolding check_fields
    check_fields-Ensures [] memo below sound = returns ((λ _. tt, λ _. refl), sound)
    check_fields-Ensures (x ∷ xs) memo below sound =
        Ensures-bind (check_field-Ensures x memo below.0 sound) λ (new, memo') p.
          Ensures-bind (check_fields-Ensures xs memo' below.1 p.1)
            λ (more, memo'') q. returns (none_of_both new more p.0 q.0, q.1)

  module _ (rank : ℕ → ℕ) (nested : IsNested c rank) (f : ℕ) where
    AllBelow-le : (xs : List Field) (n : ℕ) → n ≤ f → AllBelow rank n xs → AllBelow rank f xs
    AllBelow-le [] n h below = tt
    AllBelow-le (x ∷ xs) n h below = (omega arith, AllBelow-le xs n h below.1)

    check_allowed-Ensures :
        (t : ℕ) (xs : Option (List Field)) (allow : Allowed) (memo : Memo)
        → (c t).fields ≡ xs
        → rank t ≤ f
        → IsSound c memo
        → Ensures Never (Reports (PointersAligned c xs allow)) (check_allowed c f t xs allow memo)
    unfolding check_allowed
    check_allowed-Ensures t (some xs) (only allowed) memo e h sound =
        check_fields-Ensures rank nested f t allowed xs memo
          (AllBelow-le xs (rank t) h (nested t xs e)) sound
    check_allowed-Ensures t (some xs) everything memo e h sound =
        returns ((λ _. tt, λ _. refl), sound)
    check_allowed-Ensures t none allow memo e h sound = returns ((λ _. tt, λ _. refl), sound)

    test_class-Ensures :
        (t : ℕ) (memo : Memo)
        → rank t ≤ f
        → IsSound c memo
        → Ensures Never (Reports (IsConsistent c t)) (test_class c f t memo)
    unfolding test_class check_unaligned_ptrs check_offsets
    test_class-Ensures t memo h sound =
        Ensures-bind (check_allowed-Ensures t (c t).fields (c t).allow_unaligned memo refl h sound)
          λ (unaligned, memo') p. returns (consistent t unaligned p.0, p.1)

    test_all-Ensures :
        (ts : List ℕ) (memo : Memo)
        → IsCovered rank f ts
        → IsSound c memo
        → Ensures Never (Reports (AllConsistent c ts)) (test_all c f ts memo)
    unfolding test_all
    test_all-Ensures [] memo h sound = returns ((λ _. tt, λ _. refl), sound)
    test_all-Ensures (t ∷ ts) memo h sound =
        Ensures-bind (test_class-Ensures t memo h.0 sound) λ (new, memo') p.
          Ensures-bind (test_all-Ensures ts memo' h.1 p.1)
            λ (more, memo'') q. returns (none_of_both new more p.0 q.0, q.1)

verdict-passed : (errors : List CheckError) → (verdict errors ≡ passed) ↔ (errors ≡ [])
unfolding verdict
verdict-passed [] = (λ _. refl, λ _. refl)
verdict-passed (e ∷ es) = (λ h. cc, λ h. cc)

-- `test_classes` with fuel for the nesting of the classes returns, and it passes exactly if no
-- errors are left from before and every class agrees with its debug information: each field lies at
-- the offset that is recorded for it, the size is the native one, or none for a class of one byte,
-- and a field that is not at a multiple of its alignment is allowed not to be or holds no pointer.
pub test_classes-passed_iff :
    (c : Classes) (rank : ℕ → ℕ) (f : ℕ) (ts : List ℕ) (before : List CheckError) (memo : Memo)
    → IsNested c rank
    → IsCovered rank f ts
    → IsSound c memo
    → (r : Verdict × Memo) × (test_classes c f ts before memo ≡ ok r)
      × ((r.0 ≡ passed) ↔ ((before ≡ []) × AllConsistent c ts))
unfolding test_classes
test_classes-passed_iff c rank f ts before memo nested covered sound =
    let ((errors, memo'), e, p) =
      Ensures-Never (test_all-Ensures c rank nested f ts memo covered sound) in
    let none = none_of_both before errors (λ h. h, λ h. h) p.0 in
    let shown = verdict-passed (before ++ errors) in
    (
      (verdict (before ++ errors), memo'),
      rw e refl,
      (λ h. none.0 (shown.0 h), λ h. shown.1 (none.1 h)),
    )
