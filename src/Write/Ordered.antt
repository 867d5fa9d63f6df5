-- ===== src/Write/Ordered.antt =====
-- What `write` writes of the types stands in an order that python can read.
use ctypegen.Base.{
  ℕ, zero, suc, ◌+◌, ◌<◌, List, [], ◌∷◌, Bool, true, false, Option, none, some, ◌≡◌, refl,
  Bool-cases, length, inl, inr,
}
use ctypegen.Dwarf.{Result, ok}
use ctypegen.Dwarf.Ensures.{
  AnyError, Ensures, returns, raises, Ensures-bind, Ensures-map, Ensures-ok,
}
use ctypegen.Examine.Keys.{Name}
use ctypegen.Resolve.{
  Class, function, plain, pointer, typedef_of, array_of, modifier, member_type, enumeration, State,
  is_in, Mode, defining, define, resolve, Written,
}
use ctypegen.Resolve.Needs.{Complete}
use ctypegen.Resolve.Ranked.{IsRanked}
use ctypegen.Resolve.Readable.{Readable, Whole-Readable, IsOrdered}
use ctypegen.Resolve.Ordered.{
  AllSolid, Readable-Appends, WholeOrHollow, WholeOrHollow-Appends, InOrder, Ordering,
  Ordering-same, Ordering-trans, Seen, is_definable, definable-not_Hollow,
}
use ctypegen.Resolve.Statements.{define_all-Ordering}
use ctypegen.Resolve.Definitions.{define_function-Ordering}
use ctypegen.Resolve.Sequence.{resolve-Ordering}
use ctypegen.Write.{
  insert, sorted, Sources, report, define_variables, define_functions, entry_lt, round,
  define_wanted, define_types_of,
}
use ctypegen.Write.Moves.{is_pointer_class}
use ctypegen.Write.Total.{AllFound, AllFound-map, AllFound-sorted, define_types_of-Complete}

insert-AllFound :
    (P : ℕ → Type 0) (lt : Name × Option ℕ → Name × Option ℕ → Bool) (e : Name × Option ℕ)
    (es : List (Name × Option ℕ))
    → AllFound P (e ∷ es)
    → AllFound P (insert lt e es)
unfolding insert
insert-AllFound P lt e [] p = p
insert-AllFound P lt e ((m, h) ∷ es) (p, (q, r)) = elim (Bool-cases (lt (m, h) e)) [
  | inl b ↦ rw b (q, insert-AllFound P lt e es (p, r))
  | inr b ↦ rw b (p, (q, r))
]

pub sorted-AllFound :
    (P : ℕ → Type 0) (lt : Name × Option ℕ → Name × Option ℕ → Bool) (es : List (Name × Option ℕ))
    → AllFound P es
    → AllFound P (sorted lt es)
unfolding sorted
sorted-AllFound P lt [] p = p
sorted-AllFound P lt (e ∷ es) (p, q) =
    insert-AllFound P lt e (sorted lt es) (p, sorted-AllFound P lt es q)

abbrev pub IsFunction : Class → Type 0
IsFunction (function base params) = Unit
IsFunction _ = ⊥

module _ (x : Sources) where
  -- The type of a variable is whole, or a type of which only a declaration was found.
  abbrev pub VariableWhole : List Written → ℕ → Type 0
  VariableWhole out h = WholeOrHollow x.types out (x.type_of (x.dies h).type)

  abbrev pub FunctionReadable : List Written → ℕ → Type 0
  FunctionReadable out h = Readable x.types out (x.type_of (some h))

  abbrev pub HasFunction : ℕ → Type 0
  HasFunction h = IsFunction (x.types (x.type_of (some h))).class

module _ (x : Sources) (solid : AllSolid x.types) (f : ℕ) where
  Seen-VariableWhole :
      (h : ℕ) (b : Bool) (s : State)
      → Seen x.types defining (x.type_of (x.dies h).type) (b, s)
      → VariableWhole x s.output h
  Seen-VariableWhole h true s a = inl a
  Seen-VariableWhole h false s a = inr a

  variables-Ordering :
      (vs : List (Name × Option ℕ)) (s : State)
      → InOrder x.types s
      → Ensures AnyError
          (λ s'. Ordering x.types s s' × AllFound (VariableWhole x s'.output) vs)
          (define_variables x (resolve x.types x.deep f) vs s)
  unfolding define_variables
  variables-Ordering [] s i = returns (Ordering-same x.types s i, tt)
  variables-Ordering ((name, none) ∷ vs) s i =
      Ensures-map (variables-Ordering vs (report s) i) λ s' (o, all). (o, (tt, all))
  variables-Ordering ((name, some h) ∷ vs) s i =
      Ensures-bind
        (resolve-Ordering x.types x.deep f defining (x.type_of (x.dies h).type) s solid i)
        λ (b, s') (o, a). Ensures-map (variables-Ordering vs s' o.1) λ s'' (o', all). (
          Ordering-trans x.types s s' s'' o o',
          (
            WholeOrHollow-Appends x.types s'.output s''.output (x.type_of (x.dies h).type) o'.0
                (Seen-VariableWhole h b s' a),
            all,
          ),
        )

  Seen-Readable :
      (t : ℕ) (b : Bool) (s : State)
      → is_definable (x.types t).class ≡ true
      → Seen x.types defining t (b, s)
      → Readable x.types s.output t
  Seen-Readable t true s d a = Whole-Readable x.types s.output a
  Seen-Readable t false s d a = absurd (definable-not_Hollow x.types solid t d a)

  function-Ordering :
      (t : ℕ) (class : Class) (s : State)
      → (x.types t).class ≡ class
      → IsFunction class
      → InOrder x.types s
      → Ensures AnyError
          (λ r. Ordering x.types s r.1 × Readable x.types r.1.output t)
          (define x.types x.deep (resolve x.types x.deep f) t class s)
  unfolding define
  function-Ordering t (function base params) s e y i =
      Ensures-map
        (define_function-Ordering x.types solid x.deep (resolve x.types x.deep f)
          (λ mode u s' j. resolve-Ordering x.types x.deep f mode u s' solid j) t base params s e i)
        λ (b, s') (o, a). (o, Seen-Readable t b s' (rw e refl) a)
  function-Ordering t plain s e y i = absurd y
  function-Ordering t (pointer v base) s e y i = absurd y
  function-Ordering t (typedef_of same base) s e y i = absurd y
  function-Ordering t (array_of base) s e y i = absurd y
  function-Ordering t (modifier base) s e y i = absurd y
  function-Ordering t (member_type only members failure) s e y i = absurd y
  function-Ordering t (enumeration base) s e y i = absurd y

  functions-Ordering :
      (fs : List (Name × Option ℕ)) (s : State)
      → AllFound (HasFunction x) fs
      → InOrder x.types s
      → Ensures AnyError
          (λ s'. Ordering x.types s s' × AllFound (FunctionReadable x s'.output) fs)
          (define_functions x (resolve x.types x.deep f) fs s)
  unfolding define_functions
  functions-Ordering [] s y i = returns (Ordering-same x.types s i, tt)
  functions-Ordering ((name, none) ∷ fs) s y i =
      Ensures-map (functions-Ordering fs (report s) y.1 i) λ s' (o, all). (o, (tt, all))
  functions-Ordering ((name, some h) ∷ fs) s y i =
      Ensures-bind
        (function-Ordering (x.type_of (some h)) (x.types (x.type_of (some h))).class s refl y.0 i)
        λ (b, s') (o, a). Ensures-map (functions-Ordering fs s' y.1 o.1) λ s'' (o', all). (
          Ordering-trans x.types s s' s'' o o',
          (Readable-Appends x.types s'.output s''.output (x.type_of (some h)) o'.0 a, all),
        )

  round-Ordering :
      (next : State → Result State) (ts : List ℕ) (s : State)
      → ((s' : State) → InOrder x.types s' → Ensures AnyError (Ordering x.types s') (next s'))
      → InOrder x.types s
      → Ensures AnyError (Ordering x.types s) (round x (resolve x.types x.deep f) next ts s)
  unfolding round
  round-Ordering next [] s k i = returns (Ordering-same x.types s i)
  round-Ordering next (t ∷ ts) s k i =
      Ensures-bind
        (define_all-Ordering x.types solid x.deep (resolve x.types x.deep f)
          (λ mode u s' j. resolve-Ordering x.types x.deep f mode u s' solid j) _
          (record s { wanted = [] }) i)
        λ s' (o, all).
          Ensures-map (k s' o.1)
            λ s'' o'. Ordering-trans x.types (record s { wanted = [] }) s' s'' o o'

  define_wanted-Ordering :
      (n : ℕ) (s : State)
      → InOrder x.types s
      → Ensures AnyError (Ordering x.types s) (define_wanted x (resolve x.types x.deep f) n s)
  unfolding define_wanted
  define_wanted-Ordering zero s i = raises tt
  define_wanted-Ordering (suc n) s i =
      round-Ordering (define_wanted x (resolve x.types x.deep f) n) s.wanted s
        (define_wanted-Ordering n) i

  definitions-Ordering :
      (rounds : ℕ) (variables functions : List (Name × Option ℕ)) (s : State)
      → AllFound (HasFunction x) functions
      → InOrder x.types s
      → Ensures AnyError
          (λ s'.
            IsOrdered x.types s'.output
            × (AllFound (VariableWhole x s'.output) variables
                × AllFound (FunctionReadable x s'.output) functions))
          (define_types_of x f rounds variables functions s)
  unfolding define_types_of
  definitions-Ordering rounds variables functions s y i =
      Ensures-bind (variables-Ordering variables s i) λ s1 (o, vs).
        Ensures-bind
          (functions-Ordering (sorted (entry_lt x) functions) s1
            (sorted-AllFound (HasFunction x) (entry_lt x) functions y) o.1)
          λ s2 (o', fs). Ensures-map (define_wanted-Ordering rounds s2 o'.1) λ s3 o''. (
            o''.1.0,
            (
              AllFound-map
                  (λ h v.
                    WholeOrHollow-Appends x.types s1.output s3.output (x.type_of (x.dies h).type)
                      (Ordering-trans x.types s1 s2 s3 o' o'').0 v)
                  variables vs,
              AllFound-map
                  (λ h r. Readable-Appends x.types s2.output s3.output (x.type_of (some h)) o''.0 r)
                  functions
                  (AllFound-sorted (FunctionReadable x s2.output) (entry_lt x) functions fs),
            ),
          )

  -- If each call in the methods of the types lowers a rank, with fuel for every call, no layout raises, no
  -- typedef is of void itself, there are more than one round more than types that are pointers, no function,
  -- array or enumeration is made from a type of which only a declaration was found, the functions that were
  -- found have the types of functions, and each type that was defined before had what it needs, then the
  -- definitions that `write` makes return. Every statement that is written stands behind what it uses, if that
  -- held before, what was declared could be read and what was defined was whole: an alias behind all that the
  -- ctype of its base type uses, the fields of a structure or union behind its class statement and behind its
  -- members, with the fields of the structures and unions that these have by value, an enumeration behind its
  -- base type. What the ctypes of the functions that were found use is written then, and the types of the
  -- variables are, with their fields, for members and variables but for types of which only a declaration was
  -- found.
  pub define_types_of-IsOrdered :
      (rank : Mode → ℕ → ℕ)
      → IsRanked x.types rank
      → ((mode : Mode) (t : ℕ) → rank mode t < f)
      → (pointers : List ℕ)
      → ((u : ℕ) → is_pointer_class (x.types u).class ≡ true → is_in u pointers ≡ true)
      → (rounds : ℕ) → length pointers + 1 < rounds
      → (variables functions : List (Name × Option ℕ)) → AllFound (HasFunction x) functions
      → (s : State) → Complete x.types s
      → InOrder x.types s
      → (s' : State) × (define_types_of x f rounds variables functions s ≡ ok s')
        × (IsOrdered x.types s'.output
            × (AllFound (VariableWhole x s'.output) variables
                × AllFound (FunctionReadable x s'.output) functions))
  define_types_of-IsOrdered rank ranked enough pointers listed rounds r variables functions y s c
        i =
      let (s', e, done) =
        define_types_of-Complete x rank f ranked enough pointers listed rounds r variables functions
          s c in
      (s', e, Ensures-ok (definitions-Ordering rounds variables functions s y i) e)
