-- ===== src/Resolve/Statements.antt =====
-- The methods `declare` and `define` write what python can read, over calls that do so.
use ctypegen.Base.{
  ℕ, List, [], ◌∷◌, Bool, true, false, not, ◌&&◌, Option, none, some, ◌≡◌, refl, sym, subst, inl,
  inr, Bool-cases, if◌then◌else◌,
}
use ctypegen.Dwarf.{ok}
use ctypegen.Dwarf.Ensures.{AnyError, Ensures, returns, raises, Ensures-bind, Ensures-map}
use ctypegen.Resolve.{
  declare_plain, declare_base, declare_typedef, declare_member, Class, plain, function, pointer,
  typedef_of, array_of, modifier, member_type, enumeration, TypeObject, State, Mode, declaring,
  defining, Visit, visit_base, define_all, write_alias, declare, want, write, Written,
  class_statement, alias,
}
use ctypegen.Resolve.Needs.{Hollow, OnBase}
use ctypegen.Resolve.Readable.{
  In-last, Readable, stated, aliased, renamed, void_pointer, pointer_readable, modifier_readable,
  BaseReadable, no_base, with_base, BaseWhole, no_whole, with_whole, AllWhole, no_more, one_more,
  Whole-Readable, MembersWhole, AliasSupported,
}
use ctypegen.Resolve.Ordered.{
  AllSolid, NoneHollow, WholeOrHollow, WholeOrHollow-Appends, definable-not_Hollow, is_definable,
  InOrder, Seen, Ordering, AfterOrdering, Ordering-same, Ordering-trans, Ordering-write,
}

module _ (types : ℕ → TypeObject) (solid : AllSolid types) (deep : Bool) (visit : Visit)
    (call : (mode : Mode) (t : ℕ) (s : State)
      → InOrder types s
      → Ensures AnyError (AfterOrdering types mode t s) (visit mode t s)) where
  -- What a call on a base type answers; an absent base type is answered with true.
  abbrev pub BaseSeen : Mode → Option ℕ → Bool × State → Type 0
  BaseSeen mode none r = r.0 ≡ true
  BaseSeen mode (some t) r = Seen types mode t r

  pub visit_base-Ordering :
      (mode : Mode) (base : Option ℕ) (s : State)
      → InOrder types s
      → Ensures AnyError
          (λ r. Ordering types s r.1 × BaseSeen mode base r)
          (visit_base visit mode base s)
  unfolding visit_base
  visit_base-Ordering mode none s i = returns (Ordering-same types s i, refl)
  visit_base-Ordering mode (some t) s i = call mode t s i

  Seen-WholeOrHollow :
      (t : ℕ) (b : Bool) (s : State) → Seen types defining t (b, s) → WholeOrHollow types s.output t
  Seen-WholeOrHollow t true s a = inl a
  Seen-WholeOrHollow t false s a = inr a

  pub define_all-Ordering :
      (ts : List ℕ) (s : State)
      → InOrder types s
      → Ensures AnyError
          (λ s'. Ordering types s s' × MembersWhole types s'.output ts)
          (define_all visit ts s)
  unfolding define_all
  define_all-Ordering [] s i = returns (Ordering-same types s i, tt)
  define_all-Ordering (t ∷ ts) s i = Ensures-bind (call defining t s i) λ (b, s') (o, a).
      Ensures-map (define_all-Ordering ts s' o.1) λ s'' (o', all). (
        Ordering-trans types s s' s'' o o',
        (
          WholeOrHollow-Appends types s'.output s''.output t o'.0 (Seen-WholeOrHollow t b s' a),
          all,
        ),
      )

  -- Answers for base types that are not types with a declaration only.
  pub base-Whole :
      (base : Option ℕ) (b : Bool) (s : State)
      → OnBase (λ u. ¬ Hollow types u) base
      → BaseSeen defining base (b, s)
      → BaseWhole types s.output base
  base-Whole none b s n a = no_whole
  base-Whole (some u) true s n a = with_whole a
  base-Whole (some u) false s n a = absurd (n a)

  pub declared-Readable :
      (base : Option ℕ) (b : Bool) (s : State)
      → BaseSeen declaring base (b, s)
      → BaseReadable types s.output base
  declared-Readable none b s a = no_base
  declared-Readable (some u) b s a = with_base a

  pub all-Whole :
      (out : List Written) (ts : List ℕ)
      → NoneHollow types ts
      → MembersWhole types out ts
      → AllWhole types out ts
  all-Whole out [] n m = no_more
  all-Whole out (t ∷ ts) (n, ns) (inl r, m) = one_more r (all-Whole out ts ns m)
  all-Whole out (t ∷ ts) (n, ns) (inr h, m) = absurd (n h)

  -- What `declare` leaves for a type.
  abbrev pub Declares : ℕ → State → State → Type 0
  Declares t s s' = Ordering types s s' × Readable types s'.output t

  -- A class with no `declare` of its own.
  plain-Declares :
      (t : ℕ) (s : State)
      → is_definable (types t).class ≡ true
      → InOrder types s
      → Ensures AnyError (Declares t s) (declare_plain visit t s)
  unfolding declare_plain
  plain-Declares t s d i = Ensures-bind (call defining t s i) λ (b, s') (o, a). answer b s' o a
    where
      answer :
          (b : Bool) (s' : State)
          → Ordering types s s'
          → Seen types defining t (b, s')
          → Ensures AnyError (Declares t s) (ok s')
      answer true s' o a = returns (o, Whole-Readable types s'.output a)
      answer false s' o a = absurd (definable-not_Hollow types solid t d a)

  alias-Declares :
      (t u : ℕ) (same : Bool) (s s' : State)
      → (types t).class ≡ typedef_of same (some u)
      → Ordering types s s'
      → Readable types s'.output u
      → Declares t s (if same then s' else write (alias t) s')
  alias-Declares t u true s s' e o r = (o, renamed e r)
  alias-Declares t u false s s' e o r = (
    Ordering-write types (alias t) s s' o (subst (λ c. AliasSupported types s'.output c) (sym e) r),
    aliased e (In-last (alias t) s'.output),
  )

  -- A call of the methods of a type whose class is `class`.
  pub declare-Declares :
      (t : ℕ) (class : Class) (s : State)
      → (types t).class ≡ class
      → InOrder types s
      → Ensures AnyError (Declares t s) (declare visit t class s)
  unfolding declare write_alias declare_base declare_typedef declare_member
  declare-Declares t (pointer true base) s e i =
      Ensures-bind (visit_base-Ordering declaring base s i)
        λ (b, s') (o, a). returns (o, void_pointer e)
  declare-Declares t (pointer false base) s e i =
      Ensures-bind (visit_base-Ordering declaring base s i)
        λ (b, s') (o, a). returns (o, pointer_readable e (declared-Readable base b s' a))
  declare-Declares t (modifier base) s e i =
      Ensures-bind (visit_base-Ordering declaring base s i)
        λ (b, s') (o, a). returns (o, modifier_readable e (declared-Readable base b s' a))
  declare-Declares t (typedef_of same none) s e i =
      Ensures-bind (visit_base-Ordering declaring none s i) λ (b, s') (o, a). raises tt
  declare-Declares t (typedef_of same (some u)) s e i =
      Ensures-bind (visit_base-Ordering declaring (some u) s i)
        λ (b, s') (o, a). returns (alias-Declares t u same s s' e o a)
  declare-Declares t (member_type only members failure) s e i = returns (
    Ordering-write types (class_statement t) s s (Ordering-same types s i) tt,
    stated e (In-last (class_statement t) s.output),
  )
  declare-Declares t plain s e i = plain-Declares t s (rw e refl) i
  declare-Declares t (function base params) s e i = plain-Declares t s (rw e refl) i
  declare-Declares t (array_of base) s e i = plain-Declares t s (rw e refl) i
  declare-Declares t (enumeration base) s e i = plain-Declares t s (rw e refl) i

  pub want-Ordering :
      (base : Option ℕ) (s s' : State)
      → Ordering types s s'
      → Ordering types s (want types deep base s')
  unfolding want
  want-Ordering none s s' o = o
  want-Ordering (some u) s s' o = elim (Bool-cases (deep && not (types u).is_declaration)) [
    | inl e ↦ rw e o
    | inr e ↦ rw e o
  ]

  pub want-output : (base : Option ℕ) (s : State) → (want types deep base s).output ≡ s.output
  unfolding want
  want-output none s = refl
  want-output (some u) s = elim (Bool-cases (deep && not (types u).is_declaration)) [
    | inl e ↦ rw e refl
    | inr e ↦ rw e refl
  ]
