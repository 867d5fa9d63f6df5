-- ===== src/Resolve/Definitions.antt =====
-- `declareType` and `defineType` write what python can read: whatever is written stands behind what it uses.
use ctypegen.Base.{ℕ, List, [], ◌∷◌, Bool, true, false, Option, none, some, ◌≡◌, refl, sym, subst}
use ctypegen.Dwarf.{Error}
use ctypegen.Dwarf.Ensures.{AnyError, Ensures, returns, raises, Ensures-bind, Ensures-map}
use ctypegen.Resolve.{
  define_function, define_pointer, define_typedef, define_member, define_enum, Class, plain,
  function, pointer, typedef_of, array_of, modifier, member_type, enumeration, TypeObject, State,
  Mode, declaring, defining, Visit, visit_base, write_fields, define, fields, enum_class,
}
use ctypegen.Resolve.Needs.{Hollow, declared_only, array_hollow, modifier_hollow, typedef_hollow}
use ctypegen.Resolve.Readable.{
  In-append, In-last, is_exempt, Whole, BaseWhole, no_whole, with_whole, closed_whole, fields_whole,
  typedef_whole, modifier_whole, plain_readable, enumerated, void_pointer, pointer_readable,
  array_readable, function_readable, FieldsSupported, EnumSupported,
}
use ctypegen.Resolve.Ordered.{
  AllSolid, HasSolid, Readable-Appends, BaseWhole-Appends, Readable-stated, InOrder, Seen, Ordering,
  AfterOrdering, Ordering-same, Ordering-trans, Ordering-write,
}
use ctypegen.Resolve.Statements.{
  BaseSeen, visit_base-Ordering, define_all-Ordering, base-Whole, declared-Readable, all-Whole,
  want-Ordering, want-output,
}

module _ (types : ℕ → TypeObject) (solid : AllSolid types) (deep : Bool) (visit : Visit)
    (call : (mode : Mode) (t : ℕ) (s : State)
      → InOrder types s
      → Ensures AnyError (AfterOrdering types mode t s) (visit mode t s)) where
  -- A type whose answer is that of its base type.
  base-Seen :
      (t : ℕ) (base : Option ℕ) (b : Bool) (s : State)
      → (BaseWhole types s.output base → Whole types s.output t)
      → ((u : ℕ) → base ≡ some u → Hollow types u → Hollow types t)
      → BaseSeen types solid deep visit call defining base (b, s)
      → Seen types defining t (b, s)
  base-Seen t none true s readable hollow a = readable no_whole
  base-Seen t none false s readable hollow a = cc
  base-Seen t (some u) true s readable hollow a = readable (with_whole a)
  base-Seen t (some u) false s readable hollow a = hollow u refl a

  visit_on_base :
      (mode : Mode) (base : Option ℕ) (s : State)
      → InOrder types s
      → Ensures AnyError
          (λ r. Ordering types s r.1 × BaseSeen types solid deep visit call mode base r)
          (visit_base visit mode base s)
  visit_on_base = visit_base-Ordering types solid deep visit call

  pub define_function-Ordering :
      (t : ℕ) (base : Option ℕ) (params : List ℕ) (s : State)
      → (types t).class ≡ function base params
      → InOrder types s
      → Ensures AnyError (AfterOrdering types defining t s) (define_function visit base params s)
  unfolding define_function
  define_function-Ordering t base params s e i =
      let n : HasSolid types (function base params) = subst (HasSolid types) e (solid t) in
      Ensures-bind (visit_on_base defining base s i) λ (b, s') (o, a).
        Ensures-bind (define_all-Ordering types solid deep visit call params s' o.1)
          λ s'' (o', all). returns (
            Ordering-trans types s s' s'' o o',
            closed_whole (rw e refl) (
                function_readable e
                  (BaseWhole-Appends types s'.output s''.output base o'.0
                    (base-Whole types solid deep visit call base b s' n.0 a))
                  (all-Whole types solid deep visit call s''.output params n.1 all)),
          )

  define_pointer-Ordering :
      (t : ℕ) (is_voidp : Bool) (base : Option ℕ) (s : State)
      → (types t).class ≡ pointer is_voidp base
      → InOrder types s
      → Ensures AnyError
          (AfterOrdering types defining t s)
          (define_pointer types deep visit is_voidp base s)
  unfolding define_pointer
  define_pointer-Ordering t true base s e i =
      returns (Ordering-same types s i, closed_whole (rw e refl) (void_pointer e))
  define_pointer-Ordering t false base s e i =
      Ensures-bind (visit_on_base declaring base s i) λ (b, s') (o, a). returns (
        want-Ordering types solid deep visit call base s s' o,
        subst (λ out. Whole types out t) (sym (want-output types solid deep visit call base s'))
            (closed_whole (rw e refl)
              (pointer_readable e (declared-Readable types solid deep visit call base b s' a))),
      )

  define_typedef-Ordering :
      (t : ℕ) (same : Bool) (base : Option ℕ) (s : State)
      → (types t).class ≡ typedef_of same base
      → InOrder types s
      → Ensures AnyError (AfterOrdering types defining t s) (define_typedef visit t base s)
  unfolding define_typedef
  define_typedef-Ordering t same base s e i =
      Ensures-bind (visit_on_base declaring base s i) λ (b, s') (o, a).
        Ensures-bind (call declaring t s' o.1) λ (b', s'') (o', r).
          Ensures-map (visit_on_base defining base s'' o'.1) λ (b'', s3) (o'', a''). (
            Ordering-trans types s s' s3 o (Ordering-trans types s' s'' s3 o' o''),
            base-Seen t base b'' s3
                (λ x. typedef_whole e (Readable-Appends types s''.output s3.output t o''.0 r) x)
                (λ u k x. typedef_hollow t u same (rw (e, k)) x) a'',
          )

  -- A structure or union that `defineType` defines.
  define_member-Ordering :
      (t : ℕ) (only : Bool) (members : List ℕ) (failure : Option Error) (s : State)
      → (types t).class ≡ member_type only members failure
      → is_exempt types t ≡ false
      → InOrder types s
      → Ensures AnyError
          (AfterOrdering types defining t s)
          (define_member visit t only members failure s)
  unfolding define_member write_fields
  define_member-Ordering t true members failure s e x i =
      returns (Ordering-same types s i, declared_only t members failure e)
  define_member-Ordering t false members (some f) s e x i =
      Ensures-bind (call declaring t s i) λ (b, s') (o, r).
        Ensures-bind (define_all-Ordering types solid deep visit call members s' o.1)
          λ s'' (o', all). raises tt
  define_member-Ordering t false members none s e x i =
      Ensures-bind (call declaring t s i) λ (b, s') (o, r).
        Ensures-bind (define_all-Ordering types solid deep visit call members s' o.1)
          λ s'' (o', all).
            let r' = Readable-Appends types s'.output s''.output t o'.0 r in
            let statement = Readable-stated types s''.output t false members none e x r' in
            returns (
              Ordering-write types (fields t) s s'' (Ordering-trans types s s' s'' o o')
                  (subst (λ c. FieldsSupported types s''.output t c) (sym e) (statement, all)),
              fields_whole e (In-append _ s''.output (fields t ∷ []) statement)
                  (In-last (fields t) s''.output),
            )

  define_enum-Ordering :
      (t : ℕ) (base : Option ℕ) (s : State)
      → (types t).class ≡ enumeration base
      → InOrder types s
      → Ensures AnyError (AfterOrdering types defining t s) (define_enum visit t base s)
  unfolding define_enum
  define_enum-Ordering t base s e i =
      let n : HasSolid types (enumeration base) = subst (HasSolid types) e (solid t) in
      Ensures-bind (visit_on_base defining base s i) λ (b, s') (o, a). returns (
        Ordering-write types (enum_class t) s s' o (
            subst (λ c. EnumSupported types s'.output c) (sym e)
              (base-Whole types solid deep visit call base b s' n a)),
        closed_whole (rw e refl) (enumerated e (In-last (enum_class t) s'.output)),
      )

  pub define-Ordering :
      (t : ℕ) (class : Class) (s : State)
      → (types t).class ≡ class
      → is_exempt types t ≡ false
      → InOrder types s
      → Ensures AnyError (AfterOrdering types defining t s) (define types deep visit t class s)
  unfolding define
  define-Ordering t plain s e x i =
      returns (Ordering-same types s i, closed_whole (rw e refl) (plain_readable e))
  define-Ordering t (function base params) s e x i = define_function-Ordering t base params s e i
  define-Ordering t (pointer is_voidp base) s e x i = define_pointer-Ordering t is_voidp base s e i
  define-Ordering t (typedef_of same base) s e x i = define_typedef-Ordering t same base s e i
  define-Ordering t (array_of base) s e x i =
      Ensures-map (visit_on_base defining base s i) λ (b, s') (o, a). (
        o,
        base-Seen t base b s' (λ w. closed_whole (rw e refl) (array_readable e w))
            (λ u k h. array_hollow t u (rw (e, k)) h) a,
      )
  define-Ordering t (modifier base) s e x i =
      Ensures-map (visit_on_base defining base s i) λ (b, s') (o, a).
        (o, base-Seen t base b s' (modifier_whole e) (λ u k h. modifier_hollow t u (rw (e, k)) h) a)
  define-Ordering t (member_type only members failure) s e x i =
      define_member-Ordering t only members failure s e x i
  define-Ordering t (enumeration base) s e x i = define_enum-Ordering t base s e i
