-- ===== src/Resolve/Ranked.antt =====
-- Types on which the calls of `declare` and `define` come to an end.
use ctypegen.Base.{ℕ, ◌<◌, List, [], ◌∷◌, true, false, none, some, ◌≡◌}
use ctypegen.Resolve.{
  Class, plain, function, pointer, typedef_of, array_of, modifier, member_type, enumeration,
  TypeObject, Mode, declaring, defining,
}
use ctypegen.Resolve.Needs.{OnBase}

-- The calls that `declare` makes on a type of the class have a smaller rank, and no typedef is of void itself:
-- for such a typedef `declare` raises an AttributeError.
abbrev pub DeclareBelow : (Mode → ℕ → ℕ) → ℕ → ℕ → Class → Type 0
DeclareBelow rank n t (pointer is_voidp base) = OnBase (λ b. rank declaring b < n) base
DeclareBelow rank n t (modifier base) = OnBase (λ b. rank declaring b < n) base
DeclareBelow rank n t (typedef_of same none) = ⊥
DeclareBelow rank n t (typedef_of same (some base)) = rank declaring base < n
DeclareBelow rank n t (member_type only members failure) = Unit
DeclareBelow rank n t plain = rank defining t < n
DeclareBelow rank n t (function base params) = rank defining t < n
DeclareBelow rank n t (array_of base) = rank defining t < n
DeclareBelow rank n t (enumeration base) = rank defining t < n

abbrev pub AllBelow : (Mode → ℕ → ℕ) → ℕ → List ℕ → Type 0
AllBelow rank n [] = Unit
AllBelow rank n (t ∷ ts) = (rank defining t < n) × AllBelow rank n ts

-- The calls that `define` makes have a smaller rank, and no layout raises.
abbrev pub DefineBelow : (Mode → ℕ → ℕ) → ℕ → ℕ → Class → Type 0
DefineBelow rank n t plain = Unit
DefineBelow rank n t (function base params) =
    OnBase (λ b. rank defining b < n) base × AllBelow rank n params
DefineBelow rank n t (pointer true base) = Unit
DefineBelow rank n t (pointer false base) = OnBase (λ b. rank declaring b < n) base
DefineBelow rank n t (typedef_of same base) =
    OnBase (λ b. (rank declaring b < n) × (rank defining b < n)) base × (rank declaring t < n)
DefineBelow rank n t (array_of base) = OnBase (λ b. rank defining b < n) base
DefineBelow rank n t (modifier base) = OnBase (λ b. rank defining b < n) base
DefineBelow rank n t (member_type true members failure) = Unit
DefineBelow rank n t (member_type false members failure) =
    AllBelow rank n members × ((rank declaring t < n) × (failure ≡ none))
DefineBelow rank n t (enumeration base) = OnBase (λ b. rank defining b < n) base

-- A rank of the two calls on each type that every call in `declare` and `define` lowers.
abbrev pub IsRanked : (ℕ → TypeObject) → (Mode → ℕ → ℕ) → Type 0
IsRanked types rank =
    (t : ℕ)
    → DeclareBelow rank (rank declaring t) t (types t).class
      × DefineBelow rank (rank defining t) t (types t).class
