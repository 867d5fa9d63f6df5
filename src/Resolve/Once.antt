-- ===== src/Resolve/Once.antt =====
-- No statement is written twice: what a method leaves, over calls that write no statement twice.
use ctypegen.Base.{
  ℕ, ◌<◌, List, [], ◌∷◌, ◌++◌, Bool, true, false, not, ◌&&◌, Option, none, some, ◌≡◌, refl, sym,
  subst, ◌⊎◌, inl, inr, Bool-cases, if◌then◌else◌,
}
use ctypegen.Dwarf.{Error, Result, ok, ◌>>=◌}
use ctypegen.Dwarf.Ensures.{AnyError, Ensures, returns, raises, Ensures-bind, Ensures-map}
use ctypegen.Resolve.{
  declare_plain, declare_base, declare_typedef, declare_member, define_function, define_pointer,
  define_typedef, define_member, define_enum, Class, plain, function, pointer, typedef_of, array_of,
  modifier, member_type, enumeration, TypeObject, State, is_in, Mode, declaring, defining, Visit,
  visit_base, define_all, write_alias, write_fields, declare, want, define, write, Written,
  class_statement, fields, enum_class, alias,
}
use ctypegen.Resolve.Needs.{OnBase, OnBase-map}
use ctypegen.Resolve.Ranked.{AllBelow, DeclareBelow, DefineBelow}
use ctypegen.Resolve.Readable.{In}
use ctypegen.Resolve.Ordered.{snoc-split}

-- The type that a statement is about, and the mode of the call that writes it.
abbrev pub owner : Written → ℕ
owner (class_statement t) = t
owner (fields t) = t
owner (enum_class t) = t
owner (alias t) = t

abbrev pub writer : Written → Mode
writer (class_statement t) = declaring
writer (fields t) = defining
writer (enum_class t) = defining
writer (alias t) = declaring

-- A call of the mode on the type has returned true.
abbrev pub is_marked : State → Mode → ℕ → Bool
is_marked s declaring t = is_in t s.declared
is_marked s defining t = is_in t s.defined

-- No statement stands behind itself.
abbrev pub IsOnce : List Written → Type 0
IsOnce out =
    (before : List Written) (w : Written) (after : List Written)
    → out ≡ before ++ w ∷ after
    → ¬ In w before

-- Statements are written once, and only for calls that have returned.
abbrev pub Once : State → Type 0
Once s = IsOnce s.output × ((w : Written) → In w s.output → is_marked s (writer w) (owner w) ≡ true)

pub In-snoc : (v w : Written) (out : List Written) → In v (out ++ w ∷ []) → In v out ⊎ (w ≡ v)
In-snoc v w [] (inl e) = inr e
In-snoc v w [] (inr h) = absurd h
In-snoc v w (o ∷ out) (inl e) = inl (inl e)
In-snoc v w (o ∷ out) (inr h) = elim (In-snoc v w out h) [ inl i ↦ inl (inr i) | inr e ↦ inr e ]

pub IsOnce-write :
    (out : List Written) (w : Written) → IsOnce out → ¬ In w out → IsOnce (out ++ w ∷ [])
IsOnce-write out w once new before v after e i = elim (snoc-split out before after w v e) [
  | inl (p, q) ↦ new (subst (λ o. In w o) (sym p) (subst (λ u. In u before) (sym q) i))
  | inr (rest, p) ↦ once before v rest p i
]

module _ (rank : Mode → ℕ → ℕ) where
  -- What is written is for calls of a smaller rank.
  abbrev pub Below : ℕ → List Written → List Written → Type 0
  Below n out out' = (w : Written) → In w out' → In w out ⊎ (rank (writer w) (owner w) < n)

  abbrev pub Kept : ℕ → State → State → Type 0
  Kept n s s' = Once s' × Below n s.output s'.output

  pub Kept-same : (n : ℕ) (s : State) → Once s → Kept n s s
  Kept-same n s o = (o, λ w i. inl i)

  pub Below-trans :
      (n : ℕ) (o o' o'' : List Written) → Below n o o' → Below n o' o'' → Below n o o''
  Below-trans n o o' o'' b c w i = elim (c w i) [ inl j ↦ b w j | inr h ↦ inr h ]

  pub Kept-trans : (n : ℕ) (s s' s'' : State) → Kept n s s' → Kept n s' s'' → Kept n s s''
  Kept-trans n s s' s'' (o, b) (o', c) = (o', Below-trans n s.output s'.output s''.output b c)

  -- What a method of a type leaves: statements for calls of a smaller rank, and at the end the statement of
  -- its own call, if it returns true.
  pub data Leaves (n : ℕ) (mode : Mode) (t : ℕ) (s : State) : Bool × State → Type 0 where
    nothing : {b : Bool} {s' : State} → Kept n s s' → Leaves n mode t s (b, s')
    statement :
        {s' : State} (w : Written)
        → Kept n s s'
        → writer w ≡ mode
        → owner w ≡ t
        → Leaves n mode t s (true, write w s')

  module _ (n : ℕ) (visit : Visit)
      (call : (mode : Mode) (t : ℕ) (s : State)
        → rank mode t < n
        → Once s
        → Ensures AnyError (λ r. Kept n s r.1) (visit mode t s)) where
    visit_base-Kept :
        (mode : Mode) (base : Option ℕ) (s : State)
        → OnBase (λ b. rank mode b < n) base
        → Once s
        → Ensures AnyError (λ r. Kept n s r.1) (visit_base visit mode base s)
    unfolding visit_base
    visit_base-Kept mode none s h o = returns (Kept-same n s o)
    visit_base-Kept mode (some t) s h o = call mode t s h o

    pub define_all-Kept :
        (ts : List ℕ) (s : State)
        → AllBelow rank n ts
        → Once s
        → Ensures AnyError (Kept n s) (define_all visit ts s)
    unfolding define_all
    define_all-Kept [] s h o = returns (Kept-same n s o)
    define_all-Kept (t ∷ ts) s h o = Ensures-bind (call defining t s h.0 o) λ (b, s') k.
        Ensures-map (define_all-Kept ts s' h.1 k.0) λ s'' k'. Kept-trans n s s' s'' k k'

    -- `declare` answers nothing, and its type is marked in any case.
    abbrev pub Declared : ℕ → State → State → Type 0
    Declared t s s' = Leaves n declaring t s (true, s')

    then_nothing :
        (t : ℕ) (s : State) {r : Result (Bool × State)}
        → Ensures AnyError (λ x. Kept n s x.1) r
        → Ensures AnyError (Declared t s) (do (b, s') ← r; ok s')
    then_nothing t s e = Ensures-bind e λ (b, s') k. returns (nothing k)

    alias-Declared :
        (t : ℕ) (same : Bool) (s s' : State)
        → Kept n s s'
        → Declared t s (if same then s' else write (alias t) s')
    alias-Declared t true s s' k = nothing k
    alias-Declared t false s s' k = statement (alias t) k refl refl

    pub declare-Leaves :
        (t : ℕ) (class : Class) (s : State)
        → DeclareBelow rank n t class
        → Once s
        → Ensures AnyError (Declared t s) (declare visit t class s)
    unfolding declare declare_plain declare_base declare_typedef declare_member write_alias
    declare-Leaves t (pointer v base) s h o =
        then_nothing t s (visit_base-Kept declaring base s h o)
    declare-Leaves t (modifier base) s h o = then_nothing t s (visit_base-Kept declaring base s h o)
    declare-Leaves t (typedef_of same none) s h o = absurd h
    declare-Leaves t (typedef_of same (some u)) s h o =
        Ensures-bind (visit_base-Kept declaring (some u) s h o)
          λ (b, s') k. returns (alias-Declared t same s s' k)
    declare-Leaves t (member_type only members failure) s h o =
        returns (statement (class_statement t) (Kept-same n s o) refl refl)
    declare-Leaves t plain s h o = then_nothing t s (call defining t s h o)
    declare-Leaves t (function base params) s h o = then_nothing t s (call defining t s h o)
    declare-Leaves t (array_of base) s h o = then_nothing t s (call defining t s h o)
    declare-Leaves t (enumeration base) s h o = then_nothing t s (call defining t s h o)

    as_nothing :
        (t : ℕ) (s : State) {r : Result (Bool × State)}
        → Ensures AnyError (λ x. Kept n s x.1) r
        → Ensures AnyError (Leaves n defining t s) r
    as_nothing t s e = Ensures-map e λ (b, s') k. nothing k

    module _ (types : ℕ → TypeObject) (deep : Bool) where
      want-Kept :
          (base : Option ℕ) (s s' : State) → Kept n s s' → Kept n s (want types deep base s')
      unfolding want
      want-Kept none s s' k = k
      want-Kept (some u) s s' k = elim (Bool-cases (deep && not (types u).is_declaration)) [
        | inl e ↦ rw e k
        | inr e ↦ rw e k
      ]

      fields-Leaves :
          (t : ℕ) (failure : Option Error) (s s' : State)
          → Kept n s s'
          → Ensures AnyError (Leaves n defining t s) (write_fields t failure s')
      unfolding write_fields
      fields-Leaves t none s s' k = returns (statement (fields t) k refl refl)
      fields-Leaves t (some e) s s' k = raises tt

      pub function-Kept :
          (base : Option ℕ) (params : List ℕ) (s : State)
          → DefineBelow rank n 0 (function base params)
          → Once s
          → Ensures AnyError (λ r. Kept n s r.1) (define_function visit base params s)
      unfolding define_function
      function-Kept base params s h o =
          Ensures-bind (visit_base-Kept defining base s h.0 o) λ (b, s') k.
            Ensures-bind (define_all-Kept params s' h.1 k.0)
              λ s'' k'. returns (Kept-trans n s s' s'' k k')

      typedef-Kept :
          (t : ℕ) (same : Bool) (base : Option ℕ) (s : State)
          → DefineBelow rank n t (typedef_of same base)
          → Once s
          → Ensures AnyError (λ r. Kept n s r.1) (define_typedef visit t base s)
      unfolding define_typedef
      typedef-Kept t same base s h o =
          Ensures-bind (visit_base-Kept declaring base s (OnBase-map (λ u p. p.0) base h.0) o)
            λ (b, s') k. Ensures-bind (call declaring t s' h.1 k.0) λ (b', s'') k'.
              Ensures-map
                (visit_base-Kept defining base s'' (OnBase-map (λ u p. p.1) base h.0) k'.0)
                λ r k''. Kept-trans n s s' r.1 k (Kept-trans n s' s'' r.1 k' k'')

      pub define-Leaves :
          (t : ℕ) (class : Class) (s : State)
          → DefineBelow rank n t class
          → Once s
          → Ensures AnyError (Leaves n defining t s) (define types deep visit t class s)
      unfolding define define_pointer define_member define_enum
      define-Leaves t plain s h o = returns (nothing (Kept-same n s o))
      define-Leaves t (function base params) s h o =
          as_nothing t s (function-Kept base params s h o)
      define-Leaves t (pointer true base) s h o = returns (nothing (Kept-same n s o))
      define-Leaves t (pointer false base) s h o =
          Ensures-bind (visit_base-Kept declaring base s h o)
            λ (b, s') k. returns (nothing (want-Kept base s s' k))
      define-Leaves t (typedef_of same base) s h o = as_nothing t s (typedef-Kept t same base s h o)
      define-Leaves t (array_of base) s h o = as_nothing t s (visit_base-Kept defining base s h o)
      define-Leaves t (modifier base) s h o = as_nothing t s (visit_base-Kept defining base s h o)
      define-Leaves t (member_type true members failure) s h o = returns (nothing (Kept-same n s o))
      define-Leaves t (member_type false members failure) s h o =
          Ensures-bind (call declaring t s h.1.0 o) λ (b, s') k.
            Ensures-bind (define_all-Kept members s' h.0 k.0)
              λ s'' k'. fields-Leaves t failure s s'' (Kept-trans n s s' s'' k k')
      define-Leaves t (enumeration base) s h o =
          Ensures-bind (visit_base-Kept defining base s h o)
            λ (b, s') k. returns (statement (enum_class t) k refl refl)
