-- ===== src/Dwarf/Sizes.antt =====
-- CTypeGen/__init__.py, `die_size`: the size of a type in closed form, by the arrays on the way to the entry that
-- has a size.
use ctypegen.Base.{
  ℕ, zero, suc, ◌*◌, List, [], ◌∷◌, ◌++◌, true, false, Option, none, some, ◌≡◌, refl, sym, ap, ◌∙◌,
  arith, Bool-cases, Option-cases, inl, inr, if◌then◌else◌,
}
use mathlib.Core.List.{reverse, reverse-append}
use native.Mathlib.Nat.{mul_assoc, mul_comm, one-mul, mul-one}
use ctypegen.Dwarf.{Bound, minus_one, at, Dwarf, is_subrange, is_pointer, is_array, ok}
use ctypegen.Dwarf.Chains.{IsRanked, Suffices, Suffices-type}
use ctypegen.Dwarf.Shape.{dimension, dimensions_of, get_array_dimensions, product, sized, die_size}

-- The number of elements in one dimension: the count, or the indices from 0 to the upper bound.
abbrev pub extent : Option ℕ → Option Bound → ℕ
extent (some n) upper = n
extent none (some (at last)) = suc last
extent none (some minus_one) = 0
extent none none = 0

module _ (d : Dwarf) where
  -- The number of elements of an array with these children.
  abbrev pub elements : List ℕ → ℕ
  elements [] = 1
  elements (c ∷ cs) =
      (if is_subrange (d c).tag then extent (d c).count (d c).upper_bound else 1) * elements cs

  -- How many values of its type an entry has.
  abbrev pub copies : ℕ → ℕ
  copies h = if is_array (d h).tag then elements (d h).children else 1

  abbrev pub all_copies : List ℕ → ℕ
  all_copies [] = 1
  all_copies (h ∷ hs) = copies h * all_copies hs

  -- The entries on the way from a type to the one whose size is known: none of them has a size, and none is a
  -- pointer.
  pub data Way : Option ℕ → List ℕ → Option ℕ → Type 0 where
    here : {t : Option ℕ} → Way t [] t
    further :
        {h : ℕ} {hs : List ℕ} {t : Option ℕ}
        → (d h).byte_size ≡ none
        → is_pointer (d h).tag ≡ false
        → Way (d h).type hs t
        → Way (some h) (h ∷ hs) t

  -- The size that is known of a type: void has none, an entry its own, and a pointer that of all pointers.
  pub data HasSize (pointer_size : ℕ) : Option ℕ → ℕ → Type 0 where
    void_size : HasSize pointer_size none 0
    own_size : {h n : ℕ} → (d h).byte_size ≡ some n → HasSize pointer_size (some h) n
    pointer_has_size :
        {h : ℕ}
        → (d h).byte_size ≡ none
        → is_pointer (d h).tag ≡ true
        → HasSize pointer_size (some h) pointer_size

  dimension-extent :
      (count : Option ℕ) (upper : Option Bound) → dimension count upper ≡ extent count upper
  unfolding dimension
  dimension-extent (some n) upper = refl
  dimension-extent none (some (at last)) = omega arith
  dimension-extent none (some minus_one) = refl
  dimension-extent none none = refl

  elements-append : (xs ys : List ℕ) → elements (xs ++ ys) ≡ elements xs * elements ys
  elements-append [] ys = sym (one-mul _)
  elements-append (x ∷ xs) ys =
      ap (λ n. (if is_subrange (d x).tag then extent (d x).count (d x).upper_bound else 1) * n)
        (elements-append xs ys)
      ∙ sym (mul_assoc _ (elements xs) (elements ys))

  elements-reverse : (xs : List ℕ) → elements (reverse xs) ≡ elements xs
  elements-reverse [] = refl
  elements-reverse (x ∷ xs) =
      ap elements (reverse-append (x ∷ []) xs)
      ∙ (elements-append (reverse xs) (x ∷ [])
          ∙ (rw (elements-reverse xs, mul-one) (mul_comm (elements xs) _)))

  -- The product of the dimensions of the children.
  product-dimensions_of : (n : ℕ) (cs : List ℕ) → product n (dimensions_of d cs) ≡ n * elements cs
  unfolding product dimensions_of
  product-dimensions_of n [] = sym (mul-one n)
  product-dimensions_of n (c ∷ cs) = elim (Bool-cases (is_subrange (d c).tag)) [
    | inl e ↦ rw e (
        product-dimensions_of (n * dimension (d c).count (d c).upper_bound) cs
        ∙ (rw (dimension-extent (d c).count (d c).upper_bound) (mul_assoc n _ (elements cs))))
    | inr e ↦ rw e (product-dimensions_of n cs ∙ ap (λ m. n * m) (sym (one-mul (elements cs))))
  ]

  sized-copies : (pointer_size h n : ℕ) → sized d pointer_size h n ≡ copies h * n
  unfolding sized get_array_dimensions
  sized-copies pointer_size h n = elim (Bool-cases (is_array (d h).tag)) [
    | inl e ↦ rw e (
        product-dimensions_of n (reverse (d h).children)
        ∙ (rw (elements-reverse (d h).children) (mul_comm n _)))
    | inr e ↦ rw e (sym (one-mul n))
  ]

  die_size-own :
      (pointer_size f h n : ℕ)
      → (d h).byte_size ≡ some n
      → die_size d pointer_size (suc f) (some h) ≡ ok n
  unfolding die_size
  die_size-own pointer_size f h n e = ground arith

  die_size-pointer :
      (pointer_size f h : ℕ)
      → (d h).byte_size ≡ none
      → is_pointer (d h).tag ≡ true
      → die_size d pointer_size (suc f) (some h) ≡ ok pointer_size
  unfolding die_size
  die_size-pointer pointer_size f h e p = ground arith

  die_size-further :
      (pointer_size f h n : ℕ)
      → (d h).byte_size ≡ none
      → is_pointer (d h).tag ≡ false
      → die_size d pointer_size f (d h).type ≡ ok n
      → die_size d pointer_size (suc f) (some h) ≡ ok (copies h * n)
  unfolding die_size
  die_size-further pointer_size f h n e p r = ground (arith, sized-copies pointer_size h n)

  module _ (rank : ℕ → ℕ) (ranked : IsRanked d rank) (pointer_size : ℕ) where
    -- With fuel for the chain of types, `die_size` returns a size. There is a way from the type, over entries
    -- that are no pointers and have no size of their own, to void, whose size is 0, to an entry with a size, or
    -- to a pointer, which has the size of all pointers; and what is returned is that size times the numbers of
    -- elements of all arrays on the way, where the number for each dimension is its count, or else one more
    -- than its upper bound, or 0 if there is none.
    pub die_size-all_copies :
        (f : ℕ) (t : Option ℕ)
        → Suffices rank f t
        → (hs : List ℕ) × (last : Option ℕ) × (n : ℕ) × Way t hs last
          × HasSize pointer_size last n
          × (die_size d pointer_size f t ≡ ok (all_copies hs * n))
    unfolding die_size
    die_size-all_copies zero none s = absurd (omega arith)
    die_size-all_copies zero (some h) s = absurd (omega arith)
    die_size-all_copies (suc f) none s = ([], none, 0, here, void_size, refl)
    die_size-all_copies (suc f) (some h) s = elim (Option-cases (d h).byte_size) [
      | inr (n, e) ↦ (
        [],
        some h,
        n,
        here,
        own_size e,
        die_size-own pointer_size f h n e ∙ ap ok (sym (one-mul n)),
      )
      | inl e ↦ elim (Bool-cases (is_pointer (d h).tag)) [
        | inl p ↦ (
          [],
          some h,
          pointer_size,
          here,
          pointer_has_size e p,
          die_size-pointer pointer_size f h e p ∙ ap ok (sym (one-mul pointer_size)),
        )
        | inr p ↦
            let (hs, last, n, way, has, r) =
              die_size-all_copies f (d h).type (Suffices-type d rank ranked f h _ refl s) in
            (
              h ∷ hs,
              last,
              n,
              further e p way,
              has,
              die_size-further pointer_size f h (all_copies hs * n) e p r
                  ∙ ap ok (sym (mul_assoc (copies h) (all_copies hs) n)),
            )
      ]
    ]
