-- ===== src/Write/Moves.antt =====
-- One state of the resolver and a later one, by the types that are defined and those that are to be.
use ctypegen.Base.{ℕ, Bool, true, false, ◌≡◌, ◌∙◌, ◌⊎◌, inl, inr, Bool-cases}
use ctypegen.Resolve.{Class, pointer, TypeObject, State, is_in}

abbrev pub is_pointer_class : Class → Bool
is_pointer_class (pointer is_voidp base) = true
is_pointer_class _ = false

module _ (types : ℕ → TypeObject) where
  -- A pointer that is defined in the second state only.
  abbrev pub NewPointer : State → State → Type 0
  NewPointer s s' =
      (u : ℕ) × (is_pointer_class (types u).class ≡ true)
      × (is_in u s.defined ≡ false)
      × (is_in u s'.defined ≡ true)

  abbrev pub WantedKept : State → State → Type 0
  WantedKept s s' = (t : ℕ) → is_in t s.wanted ≡ true → is_in t s'.wanted ≡ true

  -- The types to define are the same, or there are more of them and a pointer is new.
  abbrev pub Wanting : State → State → Type 0
  Wanting s s' = (s'.wanted ≡ s.wanted) ⊎ (NewPointer s s' × WantedKept s s')

  -- Definitions are kept, and the types to define are the same unless a pointer is new.
  abbrev pub Moves : State → State → Type 0
  Moves s s' = ((t : ℕ) → is_in t s.defined ≡ true → is_in t s'.defined ≡ true) × Wanting s s'

  pub Wanting-WantedKept : (s s' : State) → Wanting s s' → WantedKept s s'
  Wanting-WantedKept s s' (inl w) t h = rw (w, h)
  Wanting-WantedKept s s' (inr (new, k)) t h = k t h

  pub Moves-same : (s s' : State) → s'.defined ≡ s.defined → s'.wanted ≡ s.wanted → Moves s s'
  Moves-same s s' d w = (λ t h. rw (d, h), inl w)

  NewPointer-later :
      (s s' s'' : State)
      → ((t : ℕ) → is_in t s.defined ≡ true → is_in t s'.defined ≡ true)
      → NewPointer s' s''
      → NewPointer s s''
  NewPointer-later s s' s'' k (u, p, a, b) = elim (Bool-cases (is_in u s.defined)) [
    | inl e ↦ (let c = k u e in cc)
    | inr e ↦ (u, p, e, b)
  ]

  pub Moves-trans : (s s' s'' : State) → Moves s s' → Moves s' s'' → Moves s s''
  Moves-trans s s' s'' (k, inl w) (k', inl w') = (λ t h. k' t (k t h), inl (w' ∙ w))
  Moves-trans s s' s'' (k, inr ((u, p, a, b), kept)) (k', m) = (
    λ t h. k' t (k t h),
    inr ((u, p, a, k' u b), λ t h. Wanting-WantedKept s' s'' m t (kept t h)),
  )
  Moves-trans s s' s'' (k, inl w) (k', inr (new, kept)) =
      (λ t h. k' t (k t h), inr (NewPointer-later s s' s'' k new, λ t h. kept t (rw (w, h))))
