-- ===== src/Write/Progress.antt =====
-- Calls of `declareType` and `defineType` ask for no more types unless they define a pointer.
use ctypegen.Base.{
  ℕ, zero, suc, ◌+◌, List, [], ◌∷◌, Bool, true, false, not, ◌&&◌, ◌||◌, Option, none, some, ◌≡◌,
  refl, arith, ◌⊎◌, inl, inr, Bool-cases, ==_iff,
}
use ctypegen.Dwarf.{Error, Result, ok, ◌>>=◌}
use ctypegen.Dwarf.Ensures.{
  AnyError, Ensures, returns, raises, Ensures-bind, Ensures-if, Ensures-map,
}
use ctypegen.Resolve.{
  declare_plain, declare_base, declare_typedef, declare_member, define_function, define_pointer,
  define_typedef, define_member, define_enum, Class, plain, function, pointer, typedef_of, array_of,
  modifier, member_type, enumeration, TypeObject, State, is_in, Mode, declaring, defining, Visit,
  visit_base, define_all, write_alias, write_fields, declare, want, define, mark_declared,
  mark_defined, declare_type, define_type, resolve, write, class_statement,
}
use ctypegen.Write.Moves.{
  is_pointer_class, WantedKept, Wanting, Wanting-WantedKept, Moves, Moves-same, Moves-trans,
}

module _ (types : ℕ → TypeObject) where
  -- A call that moves on, whatever it answers.
  abbrev pub Moving : State → Result (Bool × State) → Type 0
  Moving s r = Ensures AnyError (λ x. Moves types s x.1) r

  module _ (deep : Bool) (visit : Visit)
      (call : (mode : Mode) (t : ℕ) (s : State) → Moving s (visit mode t s)) where
    visit_base-Moves :
        (mode : Mode) (base : Option ℕ) (s : State) → Moving s (visit_base visit mode base s)
    unfolding visit_base
    visit_base-Moves mode none s = returns (Moves-same types s s refl refl)
    visit_base-Moves mode (some t) s = call mode t s

    pub define_all-Moves :
        (ts : List ℕ) (s : State) → Ensures AnyError (Moves types s) (define_all visit ts s)
    unfolding define_all
    define_all-Moves [] s = returns (Moves-same types s s refl refl)
    define_all-Moves (t ∷ ts) s =
        Ensures-bind (call defining t s) λ (b, s') m.
          Ensures-map (define_all-Moves ts s') λ s'' m'. Moves-trans types s s' s'' m m'

    then_moves :
        (s : State) {r : Result (Bool × State)}
        → Moving s r
        → Ensures AnyError (Moves types s) (do (b, s') ← r; ok s')
    then_moves s e = Ensures-bind e λ (b, s') m. returns m

    alias-Moves :
        (t : ℕ) (same : Bool) (base : Option ℕ) (s s' : State)
        → Moves types s s'
        → Ensures AnyError (Moves types s) (write_alias t same base s')
    unfolding write_alias
    alias-Moves t same none s s' m = raises tt
    alias-Moves t true (some u) s s' m = returns m
    alias-Moves t false (some u) s s' m = returns m

    declare-Moves :
        (t : ℕ) (class : Class) (s : State)
        → Ensures AnyError (Moves types s) (declare visit t class s)
    unfolding declare declare_plain declare_base declare_typedef declare_member
    declare-Moves t (pointer is_voidp base) s = then_moves s (visit_base-Moves declaring base s)
    declare-Moves t (modifier base) s = then_moves s (visit_base-Moves declaring base s)
    declare-Moves t (typedef_of same base) s =
        Ensures-bind (visit_base-Moves declaring base s) λ (b, s') m. alias-Moves t same base s s' m
    declare-Moves t (member_type only members failure) s =
        returns (Moves-same types s (write (class_statement t) s) refl refl)
    declare-Moves t plain s = then_moves s (call defining t s)
    declare-Moves t (function base params) s = then_moves s (call defining t s)
    declare-Moves t (array_of base) s = then_moves s (call defining t s)
    declare-Moves t (enumeration base) s = then_moves s (call defining t s)

    -- What a `define` of a class leaves: only a pointer asks for a type, and answers true then.
    abbrev pub Asks : Class → State → Bool × State → Type 0
    Asks class s (b, s') =
        ((t : ℕ) → is_in t s.defined ≡ true → is_in t s'.defined ≡ true)
        × (Wanting types s s'
            ⊎ ((is_pointer_class class ≡ true) × ((b ≡ true) × WantedKept types s s')))

    Moves-Asks : (class : Class) (s : State) (r : Bool × State) → Moves types s r.1 → Asks class s r
    Moves-Asks class s (b, s') (k, m) = (k, inl m)

    as_asked :
        (class : Class) (s : State) {r : Result (Bool × State)}
        → Moving s r
        → Ensures AnyError (Asks class s) r
    as_asked class s e = Ensures-map e (Moves-Asks class s)

    want-defined : (base : Option ℕ) (s : State) → (want types deep base s).defined ≡ s.defined
    unfolding want
    want-defined none s = refl
    want-defined (some u) s = elim (Bool-cases (deep && not (types u).is_declaration)) [
      | inl e ↦ rw e refl
      | inr e ↦ rw e refl
    ]

    want-kept : (base : Option ℕ) (s : State) → WantedKept types s (want types deep base s)
    unfolding want
    want-kept none s t h = h
    want-kept (some u) s t h = elim (Bool-cases (deep && not (types u).is_declaration)) [
      | inl e ↦ rw e (ground arith)
      | inr e ↦ rw e h
    ]

    fields-Moves :
        (t : ℕ) (failure : Option Error) (s s' : State)
        → Moves types s s'
        → Moving s (write_fields t failure s')
    unfolding write_fields
    fields-Moves t none s s' m = returns m
    fields-Moves t (some e) s s' m = raises tt

    define_member-Moves :
        (t : ℕ) (only : Bool) (members : List ℕ) (failure : Option Error) (s : State)
        → Moving s (define_member visit t only members failure s)
    unfolding define_member
    define_member-Moves t true members failure s = returns (Moves-same types s s refl refl)
    define_member-Moves t false members failure s = Ensures-bind (call declaring t s) λ (b, s') m.
        Ensures-bind (define_all-Moves members s')
          λ s'' m'. fields-Moves t failure s s'' (Moves-trans types s s' s'' m m')

    define_typedef-Moves :
        (t : ℕ) (base : Option ℕ) (s : State) → Moving s (define_typedef visit t base s)
    unfolding define_typedef
    define_typedef-Moves t base s = Ensures-bind (visit_base-Moves declaring base s) λ (b, s') m.
        Ensures-bind (call declaring t s') λ (b', s'') m'.
          Ensures-map (visit_base-Moves defining base s'')
            λ r m''. Moves-trans types s s' r.1 m (Moves-trans types s' s'' r.1 m' m'')

    define_function-Moves :
        (base : Option ℕ) (params : List ℕ) (s : State)
        → Moving s (define_function visit base params s)
    unfolding define_function
    define_function-Moves base params s =
        Ensures-bind (visit_base-Moves defining base s) λ (b, s') m.
          Ensures-bind (define_all-Moves params s')
            λ s'' m'. returns (Moves-trans types s s' s'' m m')

    define_pointer-Asks :
        (is_voidp : Bool) (base : Option ℕ) (s : State)
        → Ensures AnyError
            (Asks (pointer is_voidp base) s)
            (define_pointer types deep visit is_voidp base s)
    unfolding define_pointer
    define_pointer-Asks true base s = returns (λ t h. h, inl (inl refl))
    define_pointer-Asks false base s =
        Ensures-bind (visit_base-Moves declaring base s) λ (b, s') (k, m). returns (
          λ t h. rw (want-defined base s', k t h),
          inr (refl, (refl, λ t h. want-kept base s' t (Wanting-WantedKept types s s' m t h))),
        )

    pub define-Asks :
        (t : ℕ) (class : Class) (s : State)
        → Ensures AnyError (Asks class s) (define types deep visit t class s)
    unfolding define define_enum
    define-Asks t plain s = returns (λ t h. h, inl (inl refl))
    define-Asks t (function base params) s =
        as_asked (function base params) s (define_function-Moves base params s)
    define-Asks t (pointer is_voidp base) s = define_pointer-Asks is_voidp base s
    define-Asks t (typedef_of same base) s =
        as_asked (typedef_of same base) s (define_typedef-Moves t base s)
    define-Asks t (array_of base) s = as_asked (array_of base) s (visit_base-Moves defining base s)
    define-Asks t (modifier base) s = as_asked (modifier base) s (visit_base-Moves defining base s)
    define-Asks t (member_type only members failure) s =
        as_asked (member_type only members failure) s (define_member-Moves t only members failure s)
    define-Asks t (enumeration base) s =
        Ensures-bind (visit_base-Moves defining base s) λ (b, s') (k, m). returns (k, inl m)

    mark-Moves :
        (t : ℕ) (s : State) (r : Bool × State)
        → is_in t s.defined ≡ false
        → Asks (types t).class s r
        → Moves types s (mark_defined t r.0 r.1)
    unfolding mark_defined
    mark-Moves t s (true, s') e (k, inl (inl w)) = (λ u h. ground (arith, k u h), inl w)
    mark-Moves t s (true, s') e (k, inl (inr ((u, p, a, b), kept))) =
        (λ u h. ground (arith, k u h), inr ((u, p, a, ground arith), kept))
    mark-Moves t s (true, s') e (k, inr (p, (b, kept))) =
        (λ u h. ground (arith, k u h), inr ((t, p, e, ground (arith, (==_iff t t).1 refl)), kept))
    mark-Moves t s (false, s') e (k, inl m) = (k, m)
    mark-Moves t s (false, s') e (k, inr (p, (b, kept))) = cc

    declare_type-Moves : (t : ℕ) (s : State) → Moving s (declare_type types deep visit t s)
    unfolding declare_type mark_declared
    declare_type-Moves t s =
        Ensures-if (is_in t s.declared || (types t).is_foreign)
          (λ e. returns (Moves-same types s s refl refl))
          λ e. Ensures-bind (declare-Moves t (types t).class s) λ s' m. returns m

    define_type-Moves : (t : ℕ) (s : State) → Moving s (define_type types deep visit t s)
    unfolding define_type
    define_type-Moves t s =
        Ensures-if (not (types t).has_die || (is_in t s.defined || (types t).is_foreign))
          (λ e. returns (Moves-same types s s refl refl))
          λ e.
            Ensures-if (types t).is_void
              (λ v. returns (Moves-same types s (record s { errors = s.errors + 1 }) refl refl))
              λ v.
                Ensures-bind (define-Asks t (types t).class s)
                  λ (b, s') a. returns (mark-Moves t s (b, s') (ground arith) a)

  -- A call of `declareType` or `defineType` that returns keeps what is defined, and asks for no more types
  -- unless a pointer was defined.
  pub resolve-Moves :
      (deep : Bool) (f : ℕ) (mode : Mode) (t : ℕ) (s : State)
      → Ensures AnyError (λ r. Moves types s r.1) (resolve types deep f mode t s)
  unfolding resolve
  resolve-Moves deep zero mode t s = raises tt
  resolve-Moves deep (suc f) declaring t s =
      declare_type-Moves deep (resolve types deep f) (resolve-Moves deep f) t s
  resolve-Moves deep (suc f) defining t s =
      define_type-Moves deep (resolve types deep f) (resolve-Moves deep f) t s
