-- ===== src/Dwarf/Chains.antt =====
-- Chains of types: what `deref` and `die_size` return on debug information whose chains of
-- `DW_AT_type` end, and that they do return.
use ctypegen.Base.{
  ℕ, zero, suc, ◌<◌, true, false, Option, none, some, ◌≡◌, refl, arith, Bool-cases, Option-cases,
  inl, inr,
}
use ctypegen.Dwarf.{Tag, is_array, Dwarf, is_qualifier, is_pointer, ok}
use ctypegen.Dwarf.Shape.{deref, sized, die_size}

-- Every `DW_AT_type` leads to an entry of a smaller rank.
abbrev pub IsRanked : Dwarf → (ℕ → ℕ) → Type 0
IsRanked d rank = (h k : ℕ) → (d h).type ≡ some k → rank k < rank h

-- Fuel for the chain that starts at an optional entry.
abbrev pub Suffices : (ℕ → ℕ) → ℕ → Option ℕ → Type 0
Suffices rank f none = 0 < f
Suffices rank f (some h) = suc (rank h) < f

-- The entry that is left when qualifiers and typedefs are stripped, or none for a void.
pub data Strips (d : Dwarf) : Option ℕ → Option ℕ → Type 0 where
  void : Strips d none none
  stop : {h : ℕ} → is_qualifier (d h).tag ≡ false → Strips d (some h) (some h)
  strip :
      {h : ℕ} {r : Option ℕ}
      → is_qualifier (d h).tag ≡ true
      → Strips d (d h).type r
      → Strips d (some h) r

qualifier-shape : (t : Tag) → is_qualifier t ≡ true → (is_pointer t ≡ false) × (is_array t ≡ false)
qualifier-shape t h = ground arith

module _ (d : Dwarf) (rank : ℕ → ℕ) (ranked : IsRanked d rank) where
  pub Suffices-type :
      (f h : ℕ) (t : Option ℕ) → (d h).type ≡ t → Suffices rank (suc f) (some h) → Suffices rank f t
  Suffices-type f h none e s = omega arith
  Suffices-type f h (some k) e s = omega (arith, ranked h k e)

  Suffices-le :
      (f h : ℕ) (t : Option ℕ) → (d h).type ≡ t → Suffices rank f (some h) → Suffices rank f t
  Suffices-le f h none e s = omega arith
  Suffices-le f h (some k) e s = omega (arith, ranked h k e)

  -- With fuel for the chain, `deref` returns the entry that is left when qualifiers and typedefs
  -- are stripped.
  pub deref-Strips :
      (f : ℕ) (h : Option ℕ)
      → Suffices rank f h
      → (r : Option ℕ) × (deref d f h ≡ ok r) × Strips d h r
  unfolding deref
  deref-Strips zero none s = absurd (omega arith)
  deref-Strips zero (some h) s = absurd (omega arith)
  deref-Strips (suc f) none s = (none, refl, Strips.void)
  deref-Strips (suc f) (some h) s = elim (Bool-cases (is_qualifier (d h).tag)) [
    | inl q ↦
        let (r, e, c) = deref-Strips f (d h).type (Suffices-type f h _ refl s) in
        (r, rw q e, Strips.strip q c)
    | inr q ↦ (some h, rw q refl, Strips.stop q)
  ]

  module _ (pointer_size : ℕ) where
    -- With fuel for the chain, `die_size` returns a size, the same for every such fuel.
    die_size_total :
        (f g : ℕ) (h : Option ℕ)
        → Suffices rank f h
        → Suffices rank g h
        → (n : ℕ) × (die_size d pointer_size f h ≡ ok n) × (die_size d pointer_size g h ≡ ok n)
    unfolding die_size
    die_size_total zero g none s t = absurd (omega arith)
    die_size_total zero g (some h) s t = absurd (omega arith)
    die_size_total (suc f) zero none s t = absurd (omega arith)
    die_size_total (suc f) zero (some h) s t = absurd (omega arith)
    die_size_total (suc f) (suc g) none s t = (0, refl, refl)
    die_size_total (suc f) (suc g) (some h) s t = elim (Option-cases (d h).byte_size) [
      | inr (n, e) ↦ (n, ground arith, ground arith)
      | inl e ↦ elim (Bool-cases (is_pointer (d h).tag)) [
        | inl p ↦ (pointer_size, ground arith, ground arith)
        | inr p ↦
            let (n, q, q') =
              die_size_total f g (d h).type (Suffices-type f h _ refl s)
                (Suffices-type g h _ refl t) in
            (sized d pointer_size h n, ground arith, ground arith)
      ]
    ]

  module _ (pointer_size : ℕ)
      (unsized : (h : ℕ) → is_qualifier (d h).tag ≡ true → (d h).byte_size ≡ none) where
    Suffices-Strips :
        {h r : Option ℕ} (f : ℕ) → Strips d h r → Suffices rank f h → Suffices rank f r
    Suffices-Strips f Strips.void s = s
    Suffices-Strips f (Strips.stop n) s = s
    Suffices-Strips f (Strips.strip {h} q c) s = Suffices-Strips f c (Suffices-le f h _ refl s)

    -- A qualifier has the size of its type.
    die_size-qualifier :
        (f h n : ℕ)
        → is_qualifier (d h).tag ≡ true
        → die_size d pointer_size f (d h).type ≡ ok n
        → die_size d pointer_size (suc f) (some h) ≡ ok n
    unfolding die_size sized
    die_size-qualifier f h n q e = ground (arith, unsized h q, qualifier-shape (d h).tag q)

    -- Qualifiers and typedefs do not change a size: `die_size` of a type and of what is left when
    -- they are stripped is the same number.
    pub die_size-deref :
        {h r : Option ℕ} (f : ℕ)
        → Strips d h r
        → Suffices rank f h
        → (n : ℕ) × (die_size d pointer_size f h ≡ ok n) × (die_size d pointer_size f r ≡ ok n)
    die_size-deref f Strips.void s =
        let (n, e, _) = die_size_total pointer_size f f none s s in (n, e, e)
    die_size-deref f (Strips.stop {h} q) s =
        let (n, e, _) = die_size_total pointer_size f f (some h) s s in (n, e, e)
    die_size-deref zero (Strips.strip q c) s = absurd (omega arith)
    die_size-deref {r = r} (suc f) (Strips.strip {h} q c) s =
        let s' = Suffices-type f h _ refl s in
        let (n, e, e') = die_size-deref f c s' in
        let sr = Suffices-Strips f c s' in
        let (m, p, p') =
          die_size_total pointer_size f (suc f) r sr
            (Suffices-Strips (suc f) (Strips.strip q c) s) in
        (m, die_size-qualifier f h m q (cc), p')
