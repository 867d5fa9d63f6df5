-- ===== src/Resolve/Needs.antt =====
-- What a type needs of other types, and what a call of `declareType` or `defineType` leaves.
use ctypegen.Base.{
  ℕ, List, [], ◌∷◌, Bool, true, false, not, ◌||◌, Option, none, some, ◌≡◌, arith, ◌⊎◌, inl, inr,
}
use ctypegen.Dwarf.{Error}
use ctypegen.Resolve.{
  Class, plain, function, pointer, typedef_of, array_of, modifier, member_type, enumeration,
  TypeObject, State, is_in, Mode, declaring, defining,
}

-- A property of a base type, if there is one.
abbrev pub OnBase : (ℕ → Type 0) → Option ℕ → Type 0
OnBase P none = Unit
OnBase P (some t) = P t

pub OnBase-map :
    {P Q : ℕ → Type 0} → ((t : ℕ) → P t → Q t) → (base : Option ℕ) → OnBase P base → OnBase Q base
OnBase-map f none h = tt
OnBase-map f (some t) h = f t h

module _ (types : ℕ → TypeObject) where
  -- The type is declared, or comes from another module.
  abbrev pub is_declared : State → ℕ → Bool
  is_declared s t = is_in t s.declared || (types t).is_foreign

  -- The type is defined, or `defineType` has nothing to do for it.
  abbrev pub is_defined : State → ℕ → Bool
  is_defined s t =
      is_in t s.defined || (not (types t).has_die || ((types t).is_foreign || (types t).is_void))

  -- A structure or union that is only declared, or a type made from one by arrays, qualifiers or
  -- typedefs.
  pub data Hollow : ℕ → Type 0 where
    declared_only :
        (t : ℕ) (members : List ℕ) (failure : Option Error)
        → (types t).class ≡ member_type true members failure
        → Hollow t
    array_hollow : (t base : ℕ) → (types t).class ≡ array_of (some base) → Hollow base → Hollow t
    modifier_hollow : (t base : ℕ) → (types t).class ≡ modifier (some base) → Hollow base → Hollow t
    typedef_hollow :
        (t base : ℕ) (same : Bool)
        → (types t).class ≡ typedef_of same (some base)
        → Hollow base
        → Hollow t

  -- The type is defined, or cannot be.
  abbrev pub Settled : State → ℕ → Type 0
  Settled s t = (is_defined s t ≡ true) ⊎ Hollow t

  abbrev pub AllSettled : State → List ℕ → Type 0
  AllSettled s [] = Unit
  AllSettled s (t ∷ ts) = Settled s t × AllSettled s ts

  -- What a defined type needs, by its class.
  abbrev pub Needs : State → ℕ → Class → Type 0
  Needs s t plain = Unit
  Needs s t (function base params) = OnBase (Settled s) base × AllSettled s params
  Needs s t (pointer true base) = Unit
  Needs s t (pointer false base) = OnBase (λ b. is_declared s b ≡ true) base
  Needs s t (typedef_of same base) =
      OnBase (λ b. is_defined s b ≡ true) base × (is_declared s t ≡ true)
  Needs s t (array_of base) = OnBase (λ b. is_defined s b ≡ true) base
  Needs s t (modifier base) = OnBase (λ b. is_defined s b ≡ true) base
  Needs s t (member_type true members failure) = ⊥
  Needs s t (member_type false members failure) = AllSettled s members × (is_declared s t ≡ true)
  Needs s t (enumeration base) = OnBase (Settled s) base

  -- Each defined type has what it needs.
  abbrev pub Complete : State → Type 0
  Complete s = (t : ℕ) → is_in t s.defined ≡ true → Needs s t (types t).class

  abbrev pub Grows : State → State → Type 0
  Grows s s' =
      ((t : ℕ) → is_in t s.declared ≡ true → is_in t s'.declared ≡ true)
      × ((t : ℕ) → is_in t s.defined ≡ true → is_in t s'.defined ≡ true)

  pub Grows-same : (s : State) → Grows s s
  Grows-same s = (λ t h. h, λ t h. h)

  pub Grows-trans : (s s' s'' : State) → Grows s s' → Grows s' s'' → Grows s s''
  Grows-trans s s' s'' g h = (λ t e. h.0 t (g.0 t e), λ t e. h.1 t (g.1 t e))

  module _ (s s' : State) (g : Grows s s') where
    pub declared-Grows : (t : ℕ) → is_declared s t ≡ true → is_declared s' t ≡ true
    declared-Grows t h = ground (arith, g.0 t)

    pub defined-Grows : (t : ℕ) → is_defined s t ≡ true → is_defined s' t ≡ true
    defined-Grows t h = ground (arith, g.1 t)

    pub Settled-Grows : (t : ℕ) → Settled s t → Settled s' t
    Settled-Grows t (inl h) = inl (defined-Grows t h)
    Settled-Grows t (inr h) = inr h

    pub AllSettled-Grows : (ts : List ℕ) → AllSettled s ts → AllSettled s' ts
    AllSettled-Grows [] h = tt
    AllSettled-Grows (t ∷ ts) h = (Settled-Grows t h.0, AllSettled-Grows ts h.1)

    pub Needs-Grows : (t : ℕ) (class : Class) → Needs s t class → Needs s' t class
    Needs-Grows t plain h = tt
    Needs-Grows t (function base params) h =
        (OnBase-map Settled-Grows base h.0, AllSettled-Grows params h.1)
    Needs-Grows t (pointer true base) h = tt
    Needs-Grows t (pointer false base) h = OnBase-map declared-Grows base h
    Needs-Grows t (typedef_of same base) h =
        (OnBase-map defined-Grows base h.0, declared-Grows t h.1)
    Needs-Grows t (array_of base) h = OnBase-map defined-Grows base h
    Needs-Grows t (modifier base) h = OnBase-map defined-Grows base h
    Needs-Grows t (member_type true members failure) h = h
    Needs-Grows t (member_type false members failure) h =
        (AllSettled-Grows members h.0, declared-Grows t h.1)
    Needs-Grows t (enumeration base) h = OnBase-map Settled-Grows base h

    -- A state that defines no more types than one that is complete.
    pub Complete-Grows :
        Complete s → ((t : ℕ) → is_in t s'.defined ≡ true → is_in t s.defined ≡ true) → Complete s'
    Complete-Grows c back t h = Needs-Grows t (types t).class (c t (back t h))

  -- What a call leaves: more types, all with what they need, and an answer for its own type.
  abbrev pub Answered : Mode → ℕ → Bool × State → Type 0
  Answered declaring t (b, s) = is_declared s t ≡ true
  Answered defining t (true, s) = is_defined s t ≡ true
  Answered defining t (false, s) = Hollow t

  abbrev pub After : Mode → ℕ → State → Bool × State → Type 0
  After mode t s r = Grows s r.1 × (Complete r.1 × Answered mode t r)
