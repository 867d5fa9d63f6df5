-- ===== src/Render/Alignments.antt =====
-- CTypeGen/__init__.py: the alignments that `alignment` of the classes of types gives.
use ctypegen.Base.{
  ℕ, zero, suc, ◌<◌, Bool, true, false, not, ◌||◌, Option, none, some, ◌≡◌, ◌≢◌, refl, sym, arith,
  ap, Bool-cases, Option-cases, inl, inr, ◌∙◌, subst,
}
use ctypegen.Dwarf.{Result, ok, err, out_of_fuel}
use ctypegen.Dwarf.Chains.{IsRanked}
use ctypegen.Examine.Find.{
  Kind, typedef_kind, pointer_kind, function_kind, struct_kind, union_kind, primitive_kind,
  array_kind, const_kind, enum_kind, volatile_kind, function_def_kind, restrict_kind,
}
use ctypegen.Primitive.{Alignment, base_type_alignment}
use ctypegen.Primitive.Divides as Divides
use ctypegen.Primitive.Divides.{IsBounded, base_type_alignment-IsBounded}
use ctypegen.Render.{Context, base_of, from_alignment, base_alignment, alignment_of, alignment}

-- The type object of an entry is for that entry, which is its own definition.
abbrev pub IsOwn : Context → Type 0
IsOwn x = (h : ℕ) → ((x.object h).die ≡ h) × ((x.object h).definition ≡ h)

-- Pointers, structures, unions and base types have an alignment of their own.
abbrev pub has_alignment : Kind → Bool
has_alignment pointer_kind = true
has_alignment struct_kind = true
has_alignment union_kind = true
has_alignment primitive_kind = true
has_alignment _ = false

-- A type whose alignment is that of its base type: one of another module is asked for that, too.
abbrev pub is_wrapper : Context → ℕ → Bool
is_wrapper x h = (x.object h).is_external || not (has_alignment (x.object h).kind)

-- What is behind the typedefs, modifiers, arrays, enumerations and functions, or none for void.
pub data Behind (x : Context) : ℕ → Option ℕ → Type 0 where
  itself : {h : ℕ} → is_wrapper x h ≡ false → Behind x h (some h)
  nothing : {h : ℕ} → is_wrapper x h ≡ true → base_of x h ≡ none → Behind x h none
  deeper :
      {h b : ℕ} {last : Option ℕ}
      → is_wrapper x h ≡ true
      → base_of x h ≡ some b
      → Behind x b last
      → Behind x h last

module _ (x : Context) (rank : ℕ → ℕ) (own : IsOwn x) (ranked : IsRanked x.dies rank)
    (entries_ranked : Divides.IsRanked x.entries rank) (is_narrow : Bool) where
  -- The alignment of a pointer, a structure or union, or a base type, whose own search has fuel enough.
  abbrev pub IsAlignment : ℕ → Result ℕ → Kind → Type 0
  IsAlignment h r pointer_kind = r ≡ ok x.pointer_size
  IsAlignment h r struct_kind = r ≡ ok (x.member_alignment h)
  IsAlignment h r union_kind = r ≡ ok (x.member_alignment h)
  IsAlignment h r primitive_kind =
      (r ≢ err out_of_fuel)
      × (g : ℕ) × (r
          ≡ from_alignment x (base_type_alignment x.entries is_narrow g (x.object h).die))
  IsAlignment h r _ = ⊥

  abbrev pub AlignedAs : Option ℕ → Result ℕ → Type 0
  AlignedAs none r = r ≡ ok 1
  AlignedAs (some h) r = IsAlignment h r (x.object h).kind

  from_alignment_ends : (a : Alignment) → IsBounded a → from_alignment x a ≢ err out_of_fuel
  unfolding from_alignment
  from_alignment_ends (Alignment.aligned a) b = λ e. cc
  from_alignment_ends Alignment.no_python_ctype b = λ e. cc
  from_alignment_ends Alignment.attribute_error b = λ e. cc
  from_alignment_ends Alignment.out_of_fuel b = absurd b

  own-IsAlignment :
      (f h : ℕ) (k : Kind)
      → suc (rank h) < f
      → has_alignment k ≡ true
      → IsAlignment h (alignment_of x is_narrow f (alignment x is_narrow f) h k) k
  unfolding alignment_of
  own-IsAlignment f h pointer_kind s e = refl
  own-IsAlignment f h struct_kind s e = refl
  own-IsAlignment f h union_kind s e = refl
  own-IsAlignment f h primitive_kind s e = (
    from_alignment_ends _ (
        base_type_alignment-IsBounded x.entries rank is_narrow f (x.object h).die entries_ranked
          (omega (arith, ap rank (own h).0))),
    f,
    refl,
  )
  own-IsAlignment f h typedef_kind s e = cc
  own-IsAlignment f h function_kind s e = cc
  own-IsAlignment f h array_kind s e = cc
  own-IsAlignment f h const_kind s e = cc
  own-IsAlignment f h enum_kind s e = cc
  own-IsAlignment f h volatile_kind s e = cc
  own-IsAlignment f h function_def_kind s e = cc
  own-IsAlignment f h restrict_kind s e = cc

  alignment_of-wrapper :
      (f h : ℕ) (k : Kind)
      → has_alignment k ≡ false
      → alignment_of x is_narrow f (alignment x is_narrow f) h k
        ≡ base_alignment x (alignment x is_narrow f) (base_of x h)
  unfolding alignment_of
  alignment_of-wrapper f h pointer_kind e = cc
  alignment_of-wrapper f h struct_kind e = cc
  alignment_of-wrapper f h union_kind e = cc
  alignment_of-wrapper f h primitive_kind e = cc
  alignment_of-wrapper f h typedef_kind e = refl
  alignment_of-wrapper f h function_kind e = refl
  alignment_of-wrapper f h array_kind e = refl
  alignment_of-wrapper f h const_kind e = refl
  alignment_of-wrapper f h enum_kind e = refl
  alignment_of-wrapper f h volatile_kind e = refl
  alignment_of-wrapper f h function_def_kind e = refl
  alignment_of-wrapper f h restrict_kind e = refl

  alignment-wrapper :
      (f h : ℕ)
      → is_wrapper x h ≡ true
      → alignment x is_narrow (suc f) h ≡ base_alignment x (alignment x is_narrow f) (base_of x h)
  unfolding alignment
  alignment-wrapper f h w = elim (Bool-cases (x.object h).is_external) [
    | inl e ↦ rw e refl
    | inr e ↦ rw e (alignment_of-wrapper f h (x.object h).kind (ground arith))
  ]

  alignment-own :
      (f h : ℕ)
      → is_wrapper x h ≡ false
      → suc (rank h) < f
      → IsAlignment h (alignment x is_narrow (suc f) h) (x.object h).kind
  unfolding alignment
  alignment-own f h w s =
      let inside : (x.object h).is_external ≡ false = ground arith in
      rw inside (own-IsAlignment f h (x.object h).kind s (ground arith))

  -- When no chain of types, nor of the entries of base types, returns to where it was and each entry has a type
  -- object of its own, `alignment` with fuel for the chain gives the alignment of what is behind typedefs,
  -- modifiers, arrays, enumerations, functions and types of other modules: 1 if that is void, the size of a
  -- pointer for a pointer, its own alignment for a structure or union, and for a base type what
  -- `baseTypeAlignment` gives or raises, with fuel enough for its own chain.
  pub alignment-Behind :
      (f h : ℕ)
      → suc (suc (rank h)) < f
      → (last : Option ℕ) × Behind x h last × AlignedAs last (alignment x is_narrow f h)
  unfolding base_alignment
  alignment-Behind zero h s = absurd (omega arith)
  alignment-Behind (suc f) h s = elim (Bool-cases (is_wrapper x h)) [
    | inr w ↦ (some h, itself w, alignment-own f h w (omega arith))
    | inl w ↦ elim (Option-cases (base_of x h)) [
      | inl e ↦ (none, nothing w e, alignment-wrapper f h w ∙ ap (base_alignment x _) e)
      | inr (b, e) ↦
          let below : suc (suc (rank b)) < f =
            omega (arith, ranked (x.object h).definition b e, ap rank (own h).1) in
          let (last, behind, a) = alignment-Behind f b below in
          let same : alignment x is_narrow (suc f) h ≡ alignment x is_narrow f b =
            alignment-wrapper f h w ∙ ap (base_alignment x (alignment x is_narrow f)) e in
          (last, deeper w e behind, subst (AlignedAs last) (sym same) a)
    ]
  ]
