-- ===== src/Resolve/Marks.antt =====
-- The marks that `declareType` and `defineType` leave keep them from writing a statement twice.
use ctypegen.Base.{
  ℕ, zero, suc, ◌<◌, ◌≤◌, List, [], ◌∷◌, ◌++◌, Bool, true, false, not, ◌||◌, ◌≡◌, refl, sym, subst,
  arith, inl, inr, ==_iff,
}
use ctypegen.Dwarf.Ensures.{
  AnyError, Ensures, returns, raises, Ensures-bind, Ensures-if, Ensures-map,
}
use ctypegen.Resolve.{
  TypeObject, State, is_in, Mode, declaring, defining, Visit, mark_declared, mark_defined,
  declare_type, define_type, resolve, Written, write,
}
use ctypegen.Resolve.Ranked.{DeclareBelow, DefineBelow, IsRanked}
use ctypegen.Resolve.Readable.{In}
use ctypegen.Resolve.Once.{
  owner, writer, is_marked, IsOnce, Once, In-snoc, IsOnce-write, Below, Kept, Kept-same, Leaves,
  nothing, statement, declare-Leaves, define-Leaves,
}

-- A call that marks its type, or not.
abbrev marked_if : Mode → ℕ → Bool → State → State
marked_if declaring t b s = mark_declared t s
marked_if defining t b s = mark_defined t b s

marked_if-output :
    (mode : Mode) (t : ℕ) (b : Bool) (s : State) → (marked_if mode t b s).output ≡ s.output
unfolding mark_declared mark_defined
marked_if-output declaring t b s = refl
marked_if-output defining t true s = refl
marked_if-output defining t false s = refl

marked_if-keeps :
    (mode m : Mode) (t u : ℕ) (b : Bool) (s : State)
    → is_marked s m u ≡ true
    → is_marked (marked_if mode t b s) m u ≡ true
unfolding mark_declared mark_defined
marked_if-keeps declaring declaring t u b s h = ground arith
marked_if-keeps declaring defining t u b s h = h
marked_if-keeps defining declaring t u true s h = h
marked_if-keeps defining declaring t u false s h = h
marked_if-keeps defining defining t u true s h = ground arith
marked_if-keeps defining defining t u false s h = h

marked_if-marks :
    (mode : Mode) (t : ℕ) (s : State) → is_marked (marked_if mode t true s) mode t ≡ true
unfolding mark_declared mark_defined
marked_if-marks declaring t s = ground (arith, (==_iff t t).1 refl)
marked_if-marks defining t s = ground (arith, (==_iff t t).1 refl)

module _ (rank : Mode → ℕ → ℕ) where
  -- A state by its text and its marks.
  as-Kept :
      (n : ℕ) (s u : State) (out : List Written)
      → u.output ≡ out
      → IsOnce out
      → ((w : Written) → In w out → is_marked u (writer w) (owner w) ≡ true)
      → Below rank n s.output out
      → Kept rank n s u
  as-Kept n s u out e once recorded below = (
    (subst IsOnce (sym e) once, λ w i. recorded w (subst (In w) e i)),
    λ w i. below w (subst (In w) e i),
  )

  Kept-marked :
      (n : ℕ) (mode : Mode) (t : ℕ) (b : Bool) (s s' : State)
      → Kept rank n s s'
      → Kept rank n s (marked_if mode t b s')
  Kept-marked n mode t b s s' ((once, recorded), below) =
      as-Kept n s (marked_if mode t b s') s'.output (marked_if-output mode t b s') once
        (λ w i. marked_if-keeps mode (writer w) t (owner w) b s' (recorded w i)) below

  pub Kept-later : (n m : ℕ) (s s' : State) → n ≤ m → Kept rank n s s' → Kept rank m s s'
  Kept-later n m s s' l (o, below) =
      (o, λ w i. elim (below w i) [ inl j ↦ inl j | inr h ↦ inr (omega arith) ])

  -- The statement of a call is new, as its type was not marked and calls of a smaller rank do not write it.
  statement_new :
      (w : Written) (s s' : State)
      → is_marked s (writer w) (owner w) ≡ false
      → Once s
      → Kept rank (rank (writer w) (owner w)) s s'
      → ¬ In w s'.output
  statement_new w s s' h o k i = elim (k.1 w i) [
    | inl j ↦ (let m = o.1 w j in cc)
    | inr l ↦ absurd (omega arith)
  ]

  Kept-written :
      (w : Written) (s s' : State)
      → is_marked s (writer w) (owner w) ≡ false
      → Once s
      → Kept rank (rank (writer w) (owner w)) s s'
      → Kept rank
          (suc (rank (writer w) (owner w)))
          s
          (marked_if (writer w) (owner w) true (write w s'))
  Kept-written w s s' h o k =
      as-Kept (suc (rank (writer w) (owner w))) s (marked_if (writer w) (owner w) true (write w s'))
        (s'.output ++ w ∷ []) (marked_if-output (writer w) (owner w) true (write w s'))
        (IsOnce-write s'.output w k.0.0 (statement_new w s s' h o k))
        (λ v i. elim (In-snoc v w s'.output i) [
          | inl j ↦
              marked_if-keeps (writer w) (writer v) (owner w) (owner v) true (write w s')
                (k.0.1 v j)
          | inr e ↦
              subst
                (λ x.
                  is_marked (marked_if (writer w) (owner w) true (write w s')) (writer x) (owner x)
                  ≡ true)
                e (marked_if-marks (writer w) (owner w) (write w s'))
        ])
        (λ v i. elim (In-snoc v w s'.output i) [
          | inl j ↦ elim (k.1 v j) [ inl x ↦ inl x | inr l ↦ inr (omega arith) ]
          | inr e ↦ inr (
              subst (λ x. rank (writer x) (owner x) < suc (rank (writer w) (owner w))) e
                (omega arith))
        ])

  Leaves-marked :
      (mode : Mode) (t : ℕ) (s : State) (r : Bool × State)
      → is_marked s mode t ≡ false
      → Once s
      → Leaves rank (rank mode t) mode t s r
      → Kept rank (suc (rank mode t)) s (marked_if mode t r.0 r.1)
  Leaves-marked mode t s r h o (nothing {b} {s'} k) =
      Kept-later (rank mode t) (suc (rank mode t)) s (marked_if mode t b s') (omega arith)
        (Kept-marked (rank mode t) mode t b s s' k)
  Leaves-marked mode t s r h o (statement {s'} w k m e) = step mode t m e h k
    where
      step :
          (m : Mode) (u : ℕ)
          → writer w ≡ m
          → owner w ≡ u
          → is_marked s m u ≡ false
          → Kept rank (rank m u) s s'
          → Kept rank (suc (rank m u)) s (marked_if m u true (write w s'))
      step m u p q =
          subst
            (λ v.
              is_marked s m v ≡ false
              → Kept rank (rank m v) s s'
              → Kept rank (suc (rank m v)) s (marked_if m v true (write w s')))
            q
            (subst
              (λ l.
                is_marked s l (owner w) ≡ false
                → Kept rank (rank l (owner w)) s s'
                → Kept rank (suc (rank l (owner w))) s (marked_if l (owner w) true (write w s')))
              p (λ g k'. Kept-written w s s' g o k'))

  module _ (types : ℕ → TypeObject) (deep : Bool) where
    declare_type-Kept :
        (visit : Visit) (t : ℕ) (s : State)
        → ((mode : Mode) (u : ℕ) (s' : State)
            → rank mode u < rank declaring t
            → Once s'
            → Ensures AnyError (λ r. Kept rank (rank declaring t) s' r.1) (visit mode u s'))
        → DeclareBelow rank (rank declaring t) t (types t).class
        → Once s
        → Ensures AnyError
            (λ r. Kept rank (suc (rank declaring t)) s r.1)
            (declare_type types deep visit t s)
    unfolding declare_type
    declare_type-Kept visit t s call h o =
        Ensures-if (is_in t s.declared || (types t).is_foreign)
          (λ e. returns (Kept-same rank (suc (rank declaring t)) s o))
          λ e.
            Ensures-bind (declare-Leaves rank (rank declaring t) visit call t (types t).class s h o)
              λ s' l. returns (Leaves-marked declaring t s (true, s') (ground arith) o l)

    define_type-Kept :
        (visit : Visit) (t : ℕ) (s : State)
        → ((mode : Mode) (u : ℕ) (s' : State)
            → rank mode u < rank defining t
            → Once s'
            → Ensures AnyError (λ r. Kept rank (rank defining t) s' r.1) (visit mode u s'))
        → DefineBelow rank (rank defining t) t (types t).class
        → Once s
        → Ensures AnyError
            (λ r. Kept rank (suc (rank defining t)) s r.1)
            (define_type types deep visit t s)
    unfolding define_type
    define_type-Kept visit t s call h o =
        Ensures-if (not (types t).has_die || (is_in t s.defined || (types t).is_foreign))
          (λ e. returns (Kept-same rank (suc (rank defining t)) s o))
          λ e.
            Ensures-if (types t).is_void (λ v. returns (o, λ w i. inl i))
              λ v.
                Ensures-bind
                  (define-Leaves rank (rank defining t) visit call types deep t (types t).class s h
                    o)
                  λ r l. returns (Leaves-marked defining t s r (ground arith) o l)

    -- Calls that return write no statement twice, and only statements for calls of their rank or less.
    pub resolve-Kept :
        (f : ℕ) (mode : Mode) (t : ℕ) (s : State)
        → IsRanked types rank
        → Once s
        → Ensures AnyError
            (λ r. Kept rank (suc (rank mode t)) s r.1)
            (resolve types deep f mode t s)
    unfolding resolve
    resolve-Kept zero mode t s ranked o = raises tt
    resolve-Kept (suc f) declaring t s ranked o =
        declare_type-Kept (resolve types deep f) t s
          (λ mode u s' l o'.
            Ensures-map (resolve-Kept f mode u s' ranked o')
              λ r k. Kept-later (suc (rank mode u)) (rank declaring t) s' r.1 (omega arith) k)
          (ranked t).0 o
    resolve-Kept (suc f) defining t s ranked o =
        define_type-Kept (resolve types deep f) t s
          (λ mode u s' l o'.
            Ensures-map (resolve-Kept f mode u s' ranked o')
              λ r k. Kept-later (suc (rank mode u)) (rank defining t) s' r.1 (omega arith) k)
          (ranked t).1 o
