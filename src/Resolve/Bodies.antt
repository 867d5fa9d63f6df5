-- ===== src/Resolve/Bodies.antt =====
-- What the methods `declare` and `define` leave, over calls that leave what they promise.
use ctypegen.Base.{
  ℕ, ◌<◌, List, [], ◌∷◌, Bool, true, false, not, ◌&&◌, Option, none, some, ◌≡◌, refl, inl, inr,
  if◌then◌else◌, Bool-cases,
}
use ctypegen.Dwarf.{Error, Result, ok, ◌>>=◌}
use ctypegen.Dwarf.Ensures.{Never, Ensures, returns, Ensures-bind, Ensures-map}
use ctypegen.Resolve.{
  declare_plain, declare_base, declare_typedef, declare_member, define_function, define_pointer,
  define_typedef, define_member, define_enum, Class, plain, function, pointer, typedef_of, array_of,
  modifier, member_type, enumeration, TypeObject, State, Mode, declaring, defining, Visit,
  visit_base, define_all, write_alias, write_fields, declare, want, define, write, Written,
  class_statement, fields, enum_class, alias,
}
use ctypegen.Resolve.Needs.{
  is_declared, is_defined, Hollow, declared_only, array_hollow, modifier_hollow, typedef_hollow,
  Settled, AllSettled, OnBase, OnBase-map, Needs, Complete, Grows, Grows-same, Grows-trans,
  declared-Grows, Settled-Grows, AllSettled-Grows, Complete-Grows, Answered, After,
}
use ctypegen.Resolve.Ranked.{DeclareBelow, AllBelow, DefineBelow}

module _ (types : ℕ → TypeObject) (deep : Bool) (rank : Mode → ℕ → ℕ) (n : ℕ) (visit : Visit)
    (call : (mode : Mode) (t : ℕ) (s : State)
      → rank mode t < n
      → Complete types s
      → Ensures Never (After types mode t s) (visit mode t s)) where
  abbrev BaseAnswered : Mode → Option ℕ → Bool × State → Type 0
  BaseAnswered mode none r = r.0 ≡ true
  BaseAnswered mode (some t) r = Answered types mode t r

  abbrev AfterBase : Mode → Option ℕ → State → Bool × State → Type 0
  AfterBase mode base s r = Grows types s r.1 × (Complete types r.1 × BaseAnswered mode base r)

  visit_base-Ensures :
      (mode : Mode) (base : Option ℕ) (s : State)
      → OnBase (λ b. rank mode b < n) base
      → Complete types s
      → Ensures Never (AfterBase mode base s) (visit_base visit mode base s)
  unfolding visit_base
  visit_base-Ensures mode none s h c = returns (Grows-same types s, (c, refl))
  visit_base-Ensures mode (some t) s h c = call mode t s h c

  -- An answer of `defineType` says that the type is settled.
  Answered-Settled :
      (t : ℕ) (b : Bool) (s : State) → Answered types defining t (b, s) → Settled types s t
  Answered-Settled t true s a = inl a
  Answered-Settled t false s a = inr a

  abbrev pub AfterAll : List ℕ → State → State → Type 0
  AfterAll ts s s' = Grows types s s' × (Complete types s' × AllSettled types s' ts)

  pub define_all-Ensures :
      (ts : List ℕ) (s : State)
      → AllBelow rank n ts
      → Complete types s
      → Ensures Never (AfterAll ts s) (define_all visit ts s)
  unfolding define_all
  define_all-Ensures [] s h c = returns (Grows-same types s, (c, tt))
  define_all-Ensures (t ∷ ts) s h c = Ensures-bind (call defining t s h.0 c) λ (b, s') (g, (c', a)).
      Ensures-map (define_all-Ensures ts s' h.1 c') λ s'' (g', (c'', all)). (
        Grows-trans types s s' s'' g g',
        (c'', (Settled-Grows types s' s'' g' t (Answered-Settled t b s' a), all)),
      )

  base-Settled :
      (base : Option ℕ) (b : Bool) (s : State)
      → BaseAnswered defining base (b, s)
      → OnBase (Settled types s) base
  base-Settled none b s a = tt
  base-Settled (some t) b s a = Answered-Settled t b s a

  base_declared :
      (base : Option ℕ) (b : Bool) (s : State)
      → BaseAnswered declaring base (b, s)
      → OnBase (λ t. is_declared types s t ≡ true) base
  base_declared none b s a = tt
  base_declared (some t) b s a = a

  abbrev pub AfterDeclare : State → State → Type 0
  AfterDeclare s s' = Grows types s s' × Complete types s'

  -- A call whose own answer is not used.
  then_ok :
      {P : Bool × State → Type 0} (s : State) {r : Result (Bool × State)}
      → Ensures Never (λ x. Grows types s x.1 × (Complete types x.1 × P x)) r
      → Ensures Never (AfterDeclare s) (do (b, s') ← r; ok s')
  then_ok s e = Ensures-bind e λ (b, s') (g, (c, a)). returns (g, c)

  after_write :
      (w : Written) (s s' : State)
      → Grows types s s'
      → Complete types s'
      → AfterDeclare s (write w s')
  after_write w s s' g c =
      let g' : Grows types s' (write w s') = (λ t h. h, λ t h. h) in
      (Grows-trans types s s' (write w s') g g', Complete-Grows types s' (write w s') g' c λ t h. h)

  after_alias :
      (t : ℕ) (same : Bool) (s s' : State)
      → Grows types s s'
      → Complete types s'
      → AfterDeclare s (if same then s' else write (alias t) s')
  after_alias t true s s' g c = (g, c)
  after_alias t false s s' g c = after_write (alias t) s s' g c

  pub declare-Ensures :
      (t : ℕ) (class : Class) (s : State)
      → DeclareBelow rank n t class
      → Complete types s
      → Ensures Never (AfterDeclare s) (declare visit t class s)
  unfolding declare write_alias declare_plain declare_base declare_typedef declare_member
  declare-Ensures t (pointer is_voidp base) s h c =
      then_ok s (visit_base-Ensures declaring base s h c)
  declare-Ensures t (modifier base) s h c = then_ok s (visit_base-Ensures declaring base s h c)
  declare-Ensures t (typedef_of same none) s h c = absurd h
  declare-Ensures t (typedef_of same (some base)) s h c =
      Ensures-bind (visit_base-Ensures declaring (some base) s h c)
        λ (b, s') (g, (c', a)). returns (after_alias t same s s' g c')
  declare-Ensures t (member_type only members failure) s h c =
      returns (after_write (class_statement t) s s (Grows-same types s) c)
  declare-Ensures t plain s h c = then_ok s (call defining t s h c)
  declare-Ensures t (function base params) s h c = then_ok s (call defining t s h c)
  declare-Ensures t (array_of base) s h c = then_ok s (call defining t s h c)
  declare-Ensures t (enumeration base) s h c = then_ok s (call defining t s h c)

  -- What `define` leaves for a type: what the type needs, or the knowledge that it cannot be defined.
  abbrev pub Fulfils : ℕ → Class → Bool × State → Type 0
  Fulfils t class (true, s) = Needs types s t class
  Fulfils t class (false, s) = Hollow types t

  abbrev pub AfterDefine : ℕ → Class → State → Bool × State → Type 0
  AfterDefine t class s r = Grows types s r.1 × (Complete types r.1 × Fulfils t class r)

  -- A type whose answer is that of its base type.
  base-Fulfils :
      (t : ℕ) (class : Class) (base : Option ℕ) (b : Bool) (s : State)
      → ((u : ℕ) → base ≡ some u → Hollow types u → Hollow types t)
      → (OnBase (λ u. is_defined types s u ≡ true) base → Needs types s t class)
      → BaseAnswered defining base (b, s)
      → Fulfils t class (b, s)
  base-Fulfils t class none true s hollow needs a = needs tt
  base-Fulfils t class none false s hollow needs a = cc
  base-Fulfils t class (some u) true s hollow needs a = needs a
  base-Fulfils t class (some u) false s hollow needs a = hollow u refl a

  fields_lem :
      (t : ℕ) (members : List ℕ) (failure : Option Error) (s s' : State)
      → failure ≡ none
      → Grows types s s'
      → Complete types s'
      → AllSettled types s' members
      → is_declared types s' t ≡ true
      → Ensures Never
          (AfterDefine t (member_type false members failure) s)
          (write_fields t failure s')
  unfolding write_fields
  fields_lem t members none s s' f g c all d =
      let (g'', c'') = after_write (fields t) s s' g c in
      let g' : Grows types s' (write (fields t) s') = (λ u h. h, λ u h. h) in
      returns (g'', (c'', (AllSettled-Grows types s' (write (fields t) s') g' members all, d)))
  fields_lem t members (some x) s s' f g c all d = cc

  want-same :
      (base : Option ℕ) (s : State)
      → ((want types deep base s).declared ≡ s.declared)
        × ((want types deep base s).defined ≡ s.defined)
  unfolding want
  want-same none s = (refl, refl)
  want-same (some u) s = elim (Bool-cases (deep && not (types u).is_declaration)) [
    | inl e ↦ rw e (refl, refl)
    | inr e ↦ rw e (refl, refl)
  ]

  want-Grows : (base : Option ℕ) (s : State) → Grows types s (want types deep base s)
  want-Grows base s = let (d, e) = want-same base s in (λ t h. rw (d, h), λ t h. rw (e, h))

  want-Complete :
      (base : Option ℕ) (s : State) → Complete types s → Complete types (want types deep base s)
  want-Complete base s c =
      Complete-Grows types s (want types deep base s) (want-Grows base s) c
        λ t h. rw ((want-same base s).1) at h

  pub define-Ensures :
      (t : ℕ) (class : Class) (s : State)
      → (types t).class ≡ class
      → DefineBelow rank n t class
      → Complete types s
      → Ensures Never (AfterDefine t class s) (define types deep visit t class s)
  unfolding define define_function define_pointer define_typedef define_member define_enum
  define-Ensures t plain s e h c = returns (Grows-same types s, (c, tt))
  define-Ensures t (function base params) s e h c =
      Ensures-bind (visit_base-Ensures defining base s h.0 c) λ (b, s') (g, (c', a)).
        Ensures-bind (define_all-Ensures params s' h.1 c') λ s'' (g', (c'', all)). returns (
          Grows-trans types s s' s'' g g',
          (c'', (OnBase-map (Settled-Grows types s' s'' g') base (base-Settled base b s' a), all)),
        )
  define-Ensures t (pointer true base) s e h c = returns (Grows-same types s, (c, tt))
  define-Ensures t (pointer false base) s e h c =
      Ensures-bind (visit_base-Ensures declaring base s h c) λ (b, s') (g, (c', a)).
        let grown = want-Grows base s' in
        returns (
          Grows-trans types s s' (want types deep base s') g grown,
          (
            want-Complete base s' c',
            OnBase-map (declared-Grows types s' (want types deep base s') grown) base
                (base_declared base b s' a),
          ),
        )
  define-Ensures t (typedef_of same base) s e h c =
      Ensures-bind (visit_base-Ensures declaring base s (OnBase-map (λ u p. p.0) base h.0) c)
        λ (b, s') (g, (c', a)).
          Ensures-bind (call declaring t s' h.1 c') λ (b', s'') (g', (c'', d)).
            Ensures-map
              (visit_base-Ensures defining base s'' (OnBase-map (λ u p. p.1) base h.0) c'')
              λ (b'', s3) (g'', (c3, a'')). (
                Grows-trans types s s'' s3 (Grows-trans types s s' s'' g g') g'',
                (
                  c3,
                  base-Fulfils t (typedef_of same base) base b'' s3
                      (λ u k x. typedef_hollow t u same (rw (e, k)) x)
                      (λ p. (p, declared-Grows types s'' s3 g'' t d)) a'',
                ),
              )
  define-Ensures t (array_of base) s e h c =
      Ensures-map (visit_base-Ensures defining base s h c) λ (b, s') (g, (c', a)). (
        g,
        (
          c',
          base-Fulfils t (array_of base) base b s' (λ u k d. array_hollow t u (rw (e, k)) d)
              (λ p. p) a,
        ),
      )
  define-Ensures t (modifier base) s e h c =
      Ensures-map (visit_base-Ensures defining base s h c) λ (b, s') (g, (c', a)). (
        g,
        (
          c',
          base-Fulfils t (modifier base) base b s' (λ u k d. modifier_hollow t u (rw (e, k)) d)
              (λ p. p) a,
        ),
      )
  define-Ensures t (member_type true members failure) s e h c =
      returns (Grows-same types s, (c, declared_only t members failure e))
  define-Ensures t (member_type false members failure) s e h c =
      Ensures-bind (call declaring t s h.1.0 c) λ (b, s') (g, (c', d)).
        Ensures-bind (define_all-Ensures members s' h.0 c') λ s'' (g', (c'', all)).
          fields_lem t members failure s s'' h.1.1 (Grows-trans types s s' s'' g g') c'' all
            (declared-Grows types s' s'' g' t d)
  define-Ensures t (enumeration base) s e h c =
      Ensures-bind (visit_base-Ensures defining base s h c) λ (b, s') (g, (c', a)).
        let p = after_write (enum_class t) s s' g c' in
        returns (
          p.0,
          (
            p.1,
            OnBase-map (Settled-Grows types s' (write (enum_class t) s') (λ u k. k, λ u k. k)) base
                (base-Settled base b s' a),
          ),
        )
