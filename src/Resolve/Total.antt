-- ===== src/Resolve/Total.antt =====
-- Declaring and defining a type returns, and leaves all types with what they need.
use ctypegen.Base.{
  ℕ, zero, suc, ◌<◌, ◌+◌, List, ◌∷◌, Bool, true, false, not, ◌||◌, ◌==◌, ◌≡◌, refl, arith, ◌⊎◌, inl,
  inr, Bool-cases, ==_iff, subst,
}
use ctypegen.Dwarf.{ok}
use ctypegen.Dwarf.Ensures.{
  Never, Ensures-Never, Ensures, returns, Ensures-bind, Ensures-if, Ensures-ok,
}
use ctypegen.Resolve.{
  TypeObject, State, is_in, Mode, declaring, defining, Visit, mark_declared, mark_defined,
  declare_type, define_type, resolve,
}
use ctypegen.Resolve.Needs.{
  is_declared, is_defined, Needs, Complete, Grows, Grows-same, Grows-trans, Needs-Grows,
  Complete-Grows, After,
}
use ctypegen.Resolve.Ranked.{DeclareBelow, DefineBelow, IsRanked}
use ctypegen.Resolve.Bodies.{AfterDefine, declare-Ensures, define-Ensures}

module _ (types : ℕ → TypeObject) (deep : Bool) (rank : Mode → ℕ → ℕ) (n : ℕ) (visit : Visit)
    (call : (mode : Mode) (t : ℕ) (s : State)
      → rank mode t < n
      → Complete types s
      → Ensures Never (After types mode t s) (visit mode t s)) where
  is_in_first : (t : ℕ) (ts : List ℕ) → is_in t (t ∷ ts) ≡ true
  is_in_first t ts = ground (arith, (==_iff t t).1 refl)

  is_in_later : (t u : ℕ) (ts : List ℕ) → is_in u ts ≡ true → is_in u (t ∷ ts) ≡ true
  is_in_later t u ts h = ground arith

  is_in_cases : (t u : ℕ) (ts : List ℕ) → is_in u (t ∷ ts) ≡ true → (t ≡ u) ⊎ (is_in u ts ≡ true)
  is_in_cases t u ts h = elim (Bool-cases (t == u)) [
    | inl e ↦ inl ((==_iff t u).0 e)
    | inr e ↦ inr (ground arith)
  ]

  declare_type-Ensures :
      (t : ℕ) (s : State)
      → DeclareBelow rank n t (types t).class
      → Complete types s
      → Ensures Never (After types declaring t s) (declare_type types deep visit t s)
  unfolding declare_type mark_declared
  declare_type-Ensures t s h c =
      Ensures-if (is_in t s.declared || (types t).is_foreign)
        (λ e. returns (Grows-same types s, (c, e)))
        λ e.
          Ensures-bind (declare-Ensures types deep rank n visit call t (types t).class s h c)
            λ s' (g, c').
              let g' : Grows types s' (mark_declared t s') =
                (λ u k. is_in_later t u s'.declared k, λ u k. k) in
              returns (
                Grows-trans types s s' (mark_declared t s') g g',
                (
                  Complete-Grows types s' (mark_declared t s') g' c' (λ u k. k),
                  ground (arith, is_in_first t s'.declared),
                ),
              )

  mark-Complete :
      (t : ℕ) (s : State)
      → Complete types s
      → Needs types s t (types t).class
      → Complete types (record s { defined = t ∷ s.defined })
  mark-Complete t s c needs u h =
      let g : Grows types s (record s { defined = t ∷ s.defined }) =
        (λ v k. k, λ v k. is_in_later t v s.defined k) in
      Needs-Grows types s (record s { defined = t ∷ s.defined }) g u (types u).class
        (elim (is_in_cases t u s.defined h) [
          | inl e ↦ subst (λ v. Needs types s v (types v).class) e needs
          | inr k ↦ c u k
        ])

  mark-After :
      (t : ℕ) (s s' : State) (b : Bool)
      → AfterDefine types deep rank n visit call t (types t).class s (b, s')
      → After types defining t s (b, mark_defined t b s')
  unfolding mark_defined
  mark-After t s s' false a = a
  mark-After t s s' true (g, (c, needs)) = (
    Grows-trans types s s' (record s' { defined = t ∷ s'.defined }) g
        (λ u k. k, λ u k. is_in_later t u s'.defined k),
    (mark-Complete t s' c needs, ground (arith, is_in_first t s'.defined)),
  )

  define_type-Ensures :
      (t : ℕ) (s : State)
      → DefineBelow rank n t (types t).class
      → Complete types s
      → Ensures Never (After types defining t s) (define_type types deep visit t s)
  unfolding define_type
  define_type-Ensures t s h c =
      Ensures-if (not (types t).has_die || (is_in t s.defined || (types t).is_foreign))
        (λ e. returns (Grows-same types s, (c, ground arith)))
        λ e.
          Ensures-if (types t).is_void
            (λ v. returns (
              (λ u k. k, λ u k. k),
              (
                Complete-Grows types s (record s { errors = s.errors + 1 }) (λ u k. k, λ u k. k) c
                    (λ u k. k),
                ground arith,
              ),
            ))
            λ v.
              Ensures-bind
                (define-Ensures types deep rank n visit call t (types t).class s refl h c)
                λ (b, s') a. returns (mark-After t s s' b a)

pub resolve-Ensures :
    (types : ℕ → TypeObject) (deep : Bool) (rank : Mode → ℕ → ℕ) (f : ℕ) (mode : Mode) (t : ℕ)
    (s : State)
    → IsRanked types rank
    → rank mode t < f
    → Complete types s
    → Ensures Never (After types mode t s) (resolve types deep f mode t s)
unfolding resolve
resolve-Ensures types deep rank zero mode t s ranked h c = absurd (omega arith)
resolve-Ensures types deep rank (suc f) declaring t s ranked h c =
    declare_type-Ensures types deep rank (rank declaring t) (resolve types deep f)
      (λ mode u s' k c'. resolve-Ensures types deep rank f mode u s' ranked (omega arith) c') t s
      (ranked t).0 c
resolve-Ensures types deep rank (suc f) defining t s ranked h c =
    define_type-Ensures types deep rank (rank defining t) (resolve types deep f)
      (λ mode u s' k c'. resolve-Ensures types deep rank f mode u s' ranked (omega arith) c') t s
      (ranked t).1 c

-- If each call in the methods of the types lowers a rank, no layout raises and no typedef is of void itself,
-- then declareType and defineType with fuel for the rank return. They undo no declaration and no definition;
-- what each defined type needs is declared or defined then, members and parameters but for those that cannot be
-- defined, if that held before; and the type itself is declared, or defined if the answer is true, or made from
-- a structure or union of which only a declaration was found.
pub resolve-Complete :
    (types : ℕ → TypeObject) (deep : Bool) (rank : Mode → ℕ → ℕ) (f : ℕ) (mode : Mode) (t : ℕ)
    (s : State)
    → IsRanked types rank
    → rank mode t < f
    → Complete types s
    → (r : Bool × State) × (resolve types deep f mode t s ≡ ok r) × After types mode t s r
resolve-Complete types deep rank f mode t s ranked h c =
    Ensures-Never (resolve-Ensures types deep rank f mode t s ranked h c)

-- Under the same conditions a call that answers true is not repeated: for a type that is not void the
-- next call, with fuel for one call, returns at once and changes nothing.
pub resolve-resolve :
    (types : ℕ → TypeObject) (deep : Bool) (rank : Mode → ℕ → ℕ) (f g : ℕ) (mode : Mode) (t : ℕ)
    (s s' : State)
    → IsRanked types rank
    → rank mode t < f
    → Complete types s
    → (types t).is_void ≡ false
    → resolve types deep f mode t s ≡ ok (true, s')
    → resolve types deep (suc g) mode t s' ≡ ok (true, s')
unfolding resolve declare_type define_type
resolve-resolve types deep rank f g declaring t s s' ranked h c void e =
    let a = Ensures-ok (resolve-Ensures types deep rank f declaring t s ranked h c) e in
    let d : is_declared types s' t ≡ true = a.1.1 in rw (d)
resolve-resolve types deep rank f g defining t s s' ranked h c void e =
    let a = Ensures-ok (resolve-Ensures types deep rank f defining t s ranked h c) e in
    let d : is_defined types s' t ≡ true = a.1.1 in
    let skipped : (not (types t).has_die || (is_in t s'.defined || (types t).is_foreign)) ≡ true =
      ground arith in
    rw (skipped)
