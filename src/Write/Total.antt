-- ===== src/Write/Total.antt =====
-- All definitions of types that `write` makes, the types of variables, of functions and those asked for.
use ctypegen.Base.{
  ℕ, ◌+◌, ◌<◌, ◌≤◌, List, [], ◌∷◌, Bool, true, false, Option, none, some, ◌≡◌, refl, arith, ◌⊎◌,
  inl, inr, Bool-cases, length,
}
use ctypegen.Dwarf.{Result, ok}
use ctypegen.Dwarf.Ensures.{Never, Ensures, returns, Ensures-bind, Ensures-map, Ensures-Never}
use ctypegen.Examine.Keys.{Name}
use ctypegen.Resolve.{Class, State, is_in, Mode, defining, define, resolve}
use ctypegen.Resolve.Needs.{
  Hollow, Settled, Needs, Complete, Complete-Grows, Grows, Grows-same, Grows-trans, Settled-Grows,
  Needs-Grows, Answered, After,
}
use ctypegen.Resolve.Ranked.{IsRanked}
use ctypegen.Resolve.Bodies.{AfterDefine, define-Ensures}
use ctypegen.Resolve.Total.{resolve-Ensures}
use ctypegen.Write.{
  insert, sorted, Sources, report, define_variables, define_functions, entry_lt, define_types_of,
}
use ctypegen.Write.Moves.{is_pointer_class, WantedKept, Wanting-WantedKept}
use ctypegen.Write.Progress.{Asks, define-Asks, resolve-Moves}
use ctypegen.Write.Rounds.{Ensures-both, missing, define_wanted-Ensures}

-- A property of each entry that was found.
abbrev pub OnFound : (ℕ → Type 0) → Option ℕ → Type 0
OnFound P none = Unit
OnFound P (some h) = P h

abbrev pub AllFound : (ℕ → Type 0) → List (Name × Option ℕ) → Type 0
AllFound P [] = Unit
AllFound P ((name, entry) ∷ rest) = OnFound P entry × AllFound P rest

OnFound-map :
    {P Q : ℕ → Type 0} → ((h : ℕ) → P h → Q h) → (e : Option ℕ) → OnFound P e → OnFound Q e
OnFound-map f none p = tt
OnFound-map f (some h) p = f h p

pub AllFound-map :
    {P Q : ℕ → Type 0}
    → ((h : ℕ) → P h → Q h)
    → (es : List (Name × Option ℕ)) → AllFound P es
    → AllFound Q es
AllFound-map f [] p = tt
AllFound-map f ((name, e) ∷ rest) p = (OnFound-map f e p.0, AllFound-map f rest p.1)

AllFound-insert :
    (P : ℕ → Type 0) (lt : Name × Option ℕ → Name × Option ℕ → Bool) (e : Name × Option ℕ)
    (es : List (Name × Option ℕ))
    → AllFound P (insert lt e es)
    → AllFound P (e ∷ es)
unfolding insert
AllFound-insert P lt e [] p = p
AllFound-insert P lt e ((m, h) ∷ es) p = elim (Bool-cases (lt (m, h) e)) [
  | inl b ↦
      (let q : AllFound P ((m, h) ∷ insert lt e es) = rw b at p in
        let (r, rest) = AllFound-insert P lt e es q.1 in (r, (q.0, rest)))
  | inr b ↦ rw b at p
]

pub AllFound-sorted :
    (P : ℕ → Type 0) (lt : Name × Option ℕ → Name × Option ℕ → Bool) (es : List (Name × Option ℕ))
    → AllFound P (sorted lt es)
    → AllFound P es
unfolding sorted
AllFound-sorted P lt [] p = p
AllFound-sorted P lt (e ∷ es) p =
    let (q, rest) = AllFound-insert P lt e (sorted lt es) p in (q, AllFound-sorted P lt es rest)

missing-le_length : (ts : List ℕ) (s : State) → missing ts s ≤ length ts
missing-le_length [] s = omega arith
missing-le_length (t ∷ ts) s = ground (arith, missing-le_length ts s)

module _ (x : Sources) where
  -- The type of a variable is defined, or cannot be.
  abbrev pub VariableSettled : State → ℕ → Type 0
  VariableSettled s h = Settled x.types s (x.type_of (x.dies h).type)

  -- What the type of a function needs is declared or defined.
  abbrev pub FunctionReady : State → ℕ → Type 0
  FunctionReady s h =
      Needs x.types s (x.type_of (some h)) (x.types (x.type_of (some h))).class
      ⊎ Hollow x.types (x.type_of (some h))

  VariableSettled-Grows :
      (s s' : State) → Grows x.types s s' → (h : ℕ) → VariableSettled s h → VariableSettled s' h
  VariableSettled-Grows s s' g h v = Settled-Grows x.types s s' g (x.type_of (x.dies h).type) v

  FunctionReady-Grows :
      (s s' : State) → Grows x.types s s' → (h : ℕ) → FunctionReady s h → FunctionReady s' h
  FunctionReady-Grows s s' g h (inl n) = inl (Needs-Grows x.types s s' g _ _ n)
  FunctionReady-Grows s s' g h (inr e) = inr e

  -- A later state with all that the types in it need.
  abbrev pub Later : State → State → Type 0
  Later s s' = Grows x.types s s' × (Complete x.types s' × WantedKept x.types s s')

  Later-report : (s : State) → Complete x.types s → Later s (report s)
  Later-report s c = (
    (λ t h. h, λ t h. h),
    (Complete-Grows x.types s (report s) (λ t h. h, λ t h. h) c (λ t h. h), λ t h. h),
  )

  Later-trans : (s s' s'' : State) → Later s s' → Later s' s'' → Later s s''
  Later-trans s s' s'' (g, (c, k)) (g', (c', k')) =
      (Grows-trans x.types s s' s'' g g', (c', λ t h. k' t (k t h)))

  module _ (rank : Mode → ℕ → ℕ) (f : ℕ) (ranked : IsRanked x.types rank)
      (enough : (mode : Mode) (t : ℕ) → rank mode t < f) where
    Answered-Settled :
        (t : ℕ) (b : Bool) (s : State) → Answered x.types defining t (b, s) → Settled x.types s t
    Answered-Settled t true s a = inl a
    Answered-Settled t false s a = inr a

    own_visit-Ensures :
        (t : ℕ) (s : State)
        → Complete x.types s
        → Ensures Never
            (λ r. Later s r.1 × Settled x.types r.1 t)
            (resolve x.types x.deep f defining t s)
    own_visit-Ensures t s c =
        Ensures-map
          (Ensures-both
            (resolve-Ensures x.types x.deep rank f defining t s ranked (enough defining t) c)
            (resolve-Moves x.types x.deep f defining t s))
          λ (b, s') ((g, (c', a)), m).
            ((g, (c', Wanting-WantedKept x.types s s' m.1)), Answered-Settled t b s' a)

    variables-Ensures :
        (vs : List (Name × Option ℕ)) (s : State)
        → Complete x.types s
        → Ensures Never
            (λ s'. Later s s' × AllFound (VariableSettled s') vs)
            (define_variables x (resolve x.types x.deep f) vs s)
    unfolding define_variables
    variables-Ensures [] s c = returns ((Grows-same x.types s, (c, λ t h. h)), tt)
    variables-Ensures ((name, none) ∷ vs) s c =
        let l = Later-report s c in
        Ensures-map (variables-Ensures vs (report s) l.1.0)
          λ s' (l', all). (Later-trans s (report s) s' l l', (tt, all))
    variables-Ensures ((name, some h) ∷ vs) s c =
        Ensures-bind (own_visit-Ensures (x.type_of (x.dies h).type) s c) λ (b, s') (l, v).
          Ensures-map (variables-Ensures vs s' l.1.0) λ s'' (l', all).
            (Later-trans s s' s'' l l', (VariableSettled-Grows s' s'' l'.0 h v, all))

    abbrev own_visit : Mode → ℕ → State → Result (Bool × State)
    own_visit = resolve x.types x.deep f

    own_visit-Below :
        (n : ℕ) (mode : Mode) (t : ℕ) (s : State)
        → rank mode t < n
        → Complete x.types s
        → Ensures Never (After x.types mode t s) (own_visit mode t s)
    own_visit-Below n mode t s k c =
        resolve-Ensures x.types x.deep rank f mode t s ranked (enough mode t) c

    Asks-WantedKept :
        (class : Class) (s : State) (r : Bool × State)
        → Asks x.types x.deep own_visit (resolve-Moves x.types x.deep f) class s r
        → WantedKept x.types s r.1
    Asks-WantedKept class s (b, s') (k, inl w) = Wanting-WantedKept x.types s s' w
    Asks-WantedKept class s (b, s') (k, inr (p, (e, w))) = w

    -- A `define` that is called for itself, on the type of a function.
    after_function :
        (n h : ℕ) (s : State) (r : Bool × State)
        → AfterDefine x.types x.deep rank n own_visit
            (own_visit-Below n)
            (x.type_of (some h))
            (x.types (x.type_of (some h))).class
            s
            r
        → WantedKept x.types s r.1
        → Later s r.1 × FunctionReady r.1 h
    after_function n h s (true, s') (g, (c, needs)) k = ((g, (c, k)), inl needs)
    after_function n h s (false, s') (g, (c, hollow)) k = ((g, (c, k)), inr hollow)

    function-Ensures :
        (h : ℕ) (s : State)
        → Complete x.types s
        → Ensures Never
            (λ r. Later s r.1 × FunctionReady r.1 h)
            (define x.types x.deep own_visit
              (x.type_of (some h))
              (x.types (x.type_of (some h))).class
              s)
    function-Ensures h s c =
        let u = x.type_of (some h) in
        let n = rank defining u in
        Ensures-map
          (Ensures-both
            (define-Ensures x.types x.deep rank n own_visit (own_visit-Below n) u (x.types u).class
              s refl (ranked u).1 c)
            (define-Asks x.types x.deep own_visit (resolve-Moves x.types x.deep f) u
              (x.types u).class s))
          λ r (a, asks). after_function n h s r a (Asks-WantedKept (x.types u).class s r asks)

    functions-Ensures :
        (fs : List (Name × Option ℕ)) (s : State)
        → Complete x.types s
        → Ensures Never
            (λ s'. Later s s' × AllFound (FunctionReady s') fs)
            (define_functions x own_visit fs s)
    unfolding define_functions
    functions-Ensures [] s c = returns ((Grows-same x.types s, (c, λ t h. h)), tt)
    functions-Ensures ((name, none) ∷ fs) s c =
        let l = Later-report s c in
        Ensures-map (functions-Ensures fs (report s) l.1.0)
          λ s' (l', all). (Later-trans s (report s) s' l l', (tt, all))
    functions-Ensures ((name, some h) ∷ fs) s c =
        Ensures-bind (function-Ensures h s c) λ (b, s') (l, v).
          Ensures-map (functions-Ensures fs s' l.1.0)
            λ s'' (l', all). (Later-trans s s' s'' l l', (FunctionReady-Grows s' s'' l'.0 h v, all))

    -- If each call in the methods of the types lowers a rank, with fuel for every call, no layout raises, no
    -- typedef is of void itself, and there are more than one round more than types that are pointers, the
    -- definitions that `write` makes return. No type is left to define then, each defined type has what it
    -- needs, if that held before, the types of the variables that were found and those that were to be defined
    -- are defined or cannot be, and what the type of each function that was found needs is declared or defined,
    -- unless it cannot be.
    pub define_types_of-Complete :
        (pointers : List ℕ)
        → ((u : ℕ) → is_pointer_class (x.types u).class ≡ true → is_in u pointers ≡ true)
        → (rounds : ℕ) → length pointers + 1 < rounds
        → (variables functions : List (Name × Option ℕ)) (s : State) → Complete x.types s
        → (s' : State) × (define_types_of x f rounds variables functions s ≡ ok s')
          × (Complete x.types s'
              × ((s'.wanted ≡ [])
                  × (((t : ℕ) → is_in t s.wanted ≡ true → Settled x.types s' t)
                      × (AllFound (VariableSettled s') variables
                          × AllFound (FunctionReady s') functions))))
    unfolding define_types_of
    define_types_of-Complete pointers listed rounds r variables functions s c = Ensures-Never (
        Ensures-bind (variables-Ensures variables s c) λ s1 (l, vs).
          Ensures-bind (functions-Ensures (sorted (entry_lt x) functions) s1 l.1.0) λ s2 (l', fs).
            Ensures-map
              (define_wanted-Ensures x rank f ranked enough pointers listed rounds s2
                (inr (omega (arith, missing-le_length pointers s2))) l'.1.0)
              λ s3 (g, (c3, (w, settled))). (
                c3,
                (
                  w,
                  (
                    λ t h. settled t (l'.1.1 t (l.1.1 t h)),
                    (
                      AllFound-map
                          (VariableSettled-Grows s1 s3 (Grows-trans x.types s1 s2 s3 l'.0 g))
                          variables vs,
                      AllFound-map (FunctionReady-Grows s2 s3 g) functions
                          (AllFound-sorted (FunctionReady s2) (entry_lt x) functions fs),
                    ),
                  ),
                ),
              ))
