-- ===== src/Resolve/Ordered.antt =====
-- What the calls of `declareType` and `defineType` write stands in an order that python can read.
use ctypegen.Base.{
  ℕ, List, [], ◌∷◌, ◌++◌, Bool, true, false, Option, some, ◌≡◌, refl, sym, ◌∙◌, ap, subst, ◌⊎◌, inl,
  inr, append_assoc, append-nil,
}
use ctypegen.Dwarf.{Error}
use ctypegen.Resolve.{
  Class, plain, function, array_of, member_type, enumeration, TypeObject, State, is_in, Mode,
  declaring, defining, write, Written, class_statement,
}
use ctypegen.Resolve.Needs.{
  Hollow, declared_only, array_hollow, modifier_hollow, typedef_hollow, OnBase,
}
use ctypegen.Resolve.Readable.{
  In, is_exempt, Readable, exempt, plain_readable, stated, enumerated, aliased, renamed,
  void_pointer, pointer_readable, array_readable, modifier_readable, function_readable, Whole,
  BaseWhole, Readable-append, Whole-append, BaseWhole-append, Supported, IsOrdered,
}

-- The last of a list, and what is before it.
pub snoc-split :
    (out before after : List Written) (v w : Written)
    → out ++ v ∷ [] ≡ before ++ w ∷ after
    → ((out ≡ before) × (v ≡ w)) ⊎ ((rest : List Written) × (out ≡ before ++ w ∷ rest))
snoc-split [] [] after v w e = inl (refl, cc)
snoc-split [] (b ∷ []) after v w e = cc
snoc-split [] (b ∷ b' ∷ before) after v w e = cc
snoc-split (o ∷ out) [] after v w e = inr (out, cc)
snoc-split (o ∷ out) (b ∷ before) after v w e = elim (snoc-split out before after v w cc) [
  | inl (p, q) ↦ inl (cc, q)
  | inr (rest, p) ↦ inr (rest, cc)
]

-- What a function, an array or an enumeration is made from is not a type with a declaration only: a function
-- has no parameter of such a type.
abbrev pub NoneHollow : (ℕ → TypeObject) → List ℕ → Type 0
NoneHollow types [] = Unit
NoneHollow types (t ∷ ts) = ¬ Hollow types t × NoneHollow types ts

abbrev pub HasSolid : (ℕ → TypeObject) → Class → Type 0
HasSolid types (function base params) =
    OnBase (λ b. ¬ Hollow types b) base × NoneHollow types params
HasSolid types (array_of base) = OnBase (λ b. ¬ Hollow types b) base
HasSolid types (enumeration base) = OnBase (λ b. ¬ Hollow types b) base
HasSolid types _ = Unit

abbrev pub AllSolid : (ℕ → TypeObject) → Type 0
AllSolid types = (t : ℕ) → HasSolid types (types t).class

-- Plain types, functions, arrays and enumerations are not types with a declaration only.
abbrev pub is_definable : Class → Bool
is_definable plain = true
is_definable (function base params) = true
is_definable (array_of base) = true
is_definable (enumeration base) = true
is_definable _ = false

module _ (types : ℕ → TypeObject) where
  pub IsOrdered-write :
      (out : List Written) (w : Written)
      → IsOrdered types out
      → Supported types out w
      → IsOrdered types (out ++ w ∷ [])
  IsOrdered-write out v ordered h before w after e = elim (snoc-split out before after v w e) [
    | inl (p, q) ↦ subst (λ o. Supported types o w) p (subst (Supported types out) q h)
    | inr (rest, p) ↦ ordered before w rest p
  ]

  -- What is written behind other statements.
  abbrev pub Appends : List Written → List Written → Type 0
  Appends out out' = (more : List Written) × out' ≡ out ++ more

  pub Appends-same : (out : List Written) → Appends out out
  Appends-same out = ([], sym (append-nil out))

  pub Appends-trans : (o o' o'' : List Written) → Appends o o' → Appends o' o'' → Appends o o''
  Appends-trans o o' o'' (m, e) (n, f) = (m ++ n, f ∙ (ap (λ x. x ++ n) e ∙ append_assoc o m n))

  pub Readable-Appends :
      (out out' : List Written) (t : ℕ)
      → Appends out out'
      → Readable types out t
      → Readable types out' t
  Readable-Appends out out' t (more, e) r =
      subst (λ o. Readable types o t) (sym e) (Readable-append types out more r)

  pub Whole-Appends :
      (out out' : List Written) (t : ℕ) → Appends out out' → Whole types out t → Whole types out' t
  Whole-Appends out out' t (more, e) r =
      subst (λ o. Whole types o t) (sym e) (Whole-append types out more r)

  pub BaseWhole-Appends :
      (out out' : List Written) (b : Option ℕ)
      → Appends out out'
      → BaseWhole types out b
      → BaseWhole types out' b
  BaseWhole-Appends out out' b (more, e) r =
      subst (λ o. BaseWhole types o b) (sym e) (BaseWhole-append types out more r)

  -- Whole, or a type of which only a declaration was found.
  abbrev pub WholeOrHollow : List Written → ℕ → Type 0
  WholeOrHollow out t = Whole types out t ⊎ Hollow types t

  pub WholeOrHollow-Appends :
      (out out' : List Written) (t : ℕ)
      → Appends out out'
      → WholeOrHollow out t
      → WholeOrHollow out' t
  WholeOrHollow-Appends out out' t a (inl r) = inl (Whole-Appends out out' t a r)
  WholeOrHollow-Appends out out' t a (inr h) = inr h

  -- A structure or union that is written has its class statement.
  pub Readable-stated :
      (out : List Written) (t : ℕ) (only : Bool) (members : List ℕ) (failure : Option Error)
      → (types t).class ≡ member_type only members failure
      → is_exempt types t ≡ false
      → Readable types out t
      → In (class_statement t) out
  Readable-stated out t only members failure c x (exempt e) = cc
  Readable-stated out t only members failure c x (plain_readable e) = cc
  Readable-stated out t only members failure c x (stated e i) = i
  Readable-stated out t only members failure c x (enumerated e i) = cc
  Readable-stated out t only members failure c x (aliased e i) = cc
  Readable-stated out t only members failure c x (renamed e r) = cc
  Readable-stated out t only members failure c x (void_pointer e) = cc
  Readable-stated out t only members failure c x (pointer_readable e r) = cc
  Readable-stated out t only members failure c x (array_readable e r) = cc
  Readable-stated out t only members failure c x (modifier_readable e r) = cc
  Readable-stated out t only members failure c x (function_readable e r rs) = cc

  module _ (solid : AllSolid types) where
    array_solid :
        (t : ℕ) (base : Option ℕ)
        → (types t).class ≡ array_of base
        → OnBase (λ b. ¬ Hollow types b) base
    array_solid t base e =
        let s : HasSolid types (array_of base) = subst (HasSolid types) e (solid t) in s

    pub definable-not_Hollow : (t : ℕ) → is_definable (types t).class ≡ true → ¬ Hollow types t
    definable-not_Hollow t d (declared_only u members failure e) = cc
    definable-not_Hollow t d (array_hollow u b e h) = array_solid t (some b) e h
    definable-not_Hollow t d (modifier_hollow u b e h) =
        (let k = subst (λ c. is_definable c ≡ true) e d in cc)
    definable-not_Hollow t d (typedef_hollow u b same e h) =
        (let k = subst (λ c. is_definable c ≡ true) e d in cc)

  -- Everything that is written is supported, what is declared is readable, and what is defined is whole.
  abbrev pub InOrder : State → Type 0
  InOrder s =
      IsOrdered types s.output
      × (((t : ℕ) → is_in t s.declared ≡ true → Readable types s.output t)
          × ((t : ℕ) → is_in t s.defined ≡ true → Whole types s.output t))

  pub write-InOrder :
      (w : Written) (s : State) → InOrder s → Supported types s.output w → InOrder (write w s)
  write-InOrder w s (ordered, (declared, defined)) h = (
    IsOrdered-write s.output w ordered h,
    (
      λ t e. Readable-append types s.output (w ∷ []) (declared t e),
      λ t e. Whole-append types s.output (w ∷ []) (defined t e),
    ),
  )

  -- What a call answers for its type.
  abbrev pub Seen : Mode → ℕ → Bool × State → Type 0
  Seen declaring t (b, s) = Readable types s.output t
  Seen defining t (true, s) = Whole types s.output t
  Seen defining t (false, s) = Hollow types t

  abbrev pub Ordering : State → State → Type 0
  Ordering s s' = Appends s.output s'.output × InOrder s'

  abbrev pub AfterOrdering : Mode → ℕ → State → Bool × State → Type 0
  AfterOrdering mode t s r = Ordering s r.1 × Seen mode t r

  pub Ordering-same : (s : State) → InOrder s → Ordering s s
  Ordering-same s i = (Appends-same s.output, i)

  pub Ordering-trans : (s s' s'' : State) → Ordering s s' → Ordering s' s'' → Ordering s s''
  Ordering-trans s s' s'' (a, i) (b, j) = (Appends-trans s.output s'.output s''.output a b, j)

  pub Ordering-write :
      (w : Written) (s s' : State)
      → Ordering s s'
      → Supported types s'.output w
      → Ordering s (write w s')
  Ordering-write w s s' (a, i) h = (
    Appends-trans s.output s'.output (s'.output ++ w ∷ []) a (w ∷ [], refl),
    write-InOrder w s' i h,
  )
