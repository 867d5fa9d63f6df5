-- ===== src/Write/Single.antt =====
-- `write` writes no statement of a type twice.
use ctypegen.Base.{
  arith, ℕ, zero, suc, ◌+◌, ◌<◌, List, [], ◌∷◌, true, Option, none, some, ◌≡◌, length,
}
use ctypegen.Dwarf.{Result, ok}
use ctypegen.Dwarf.Ensures.{
  AnyError, Ensures, returns, raises, Ensures-bind, Ensures-map, Ensures-ok,
}
use ctypegen.Examine.Keys.{Name}
use ctypegen.Resolve.{
  Class, function, plain, pointer, typedef_of, array_of, modifier, member_type, enumeration, State,
  is_in, Mode, defining, define, resolve,
}
use ctypegen.Resolve.Needs.{OnBase, Complete}
use ctypegen.Resolve.Ranked.{AllBelow, IsRanked}
use ctypegen.Resolve.Once.{Once, Kept, define_all-Kept, function-Kept}
use ctypegen.Resolve.Marks.{Kept-later, resolve-Kept}
use ctypegen.Write.{
  sorted, Sources, report, define_variables, define_functions, entry_lt, round, define_wanted,
  define_types_of,
}
use ctypegen.Write.Moves.{is_pointer_class}
use ctypegen.Write.Total.{AllFound, define_types_of-Complete}
use ctypegen.Write.Ordered.{HasFunction, IsFunction, sorted-AllFound}

module _ (x : Sources) (rank : Mode → ℕ → ℕ) (f : ℕ) (ranked : IsRanked x.types rank)
    (enough : (mode : Mode) (t : ℕ) → rank mode t < f) where
  variables-Once :
      (vs : List (Name × Option ℕ)) (s : State)
      → Once s
      → Ensures AnyError Once (define_variables x (resolve x.types x.deep f) vs s)
  unfolding define_variables
  variables-Once [] s o = returns o
  variables-Once ((name, none) ∷ vs) s o = variables-Once vs (report s) o
  variables-Once ((name, some h) ∷ vs) s o =
      Ensures-bind
        (resolve-Kept rank x.types x.deep f defining (x.type_of (x.dies h).type) s ranked o)
        λ (b, s') k. variables-Once vs s' k.0

  -- Each call that is within the fuel.
  call_below :
      (mode : Mode) (t : ℕ) (s : State)
      → rank mode t < f
      → Once s
      → Ensures AnyError (λ r. Kept rank f s r.1) (resolve x.types x.deep f mode t s)
  call_below mode t s l o =
      Ensures-map (resolve-Kept rank x.types x.deep f mode t s ranked o)
        λ r k. Kept-later rank (suc (rank mode t)) f s r.1 (omega arith) k

  AllBelow_lem : (ts : List ℕ) → AllBelow rank f ts
  AllBelow_lem [] = tt
  AllBelow_lem (t ∷ ts) = (enough defining t, AllBelow_lem ts)

  function-Once :
      (t : ℕ) (class : Class) (s : State)
      → IsFunction class
      → Once s
      → Ensures AnyError
          (λ r. Once r.1)
          (define x.types x.deep (resolve x.types x.deep f) t class s)
  unfolding define
  function-Once t (function base params) s y o =
      Ensures-map
        (function-Kept rank f (resolve x.types x.deep f) call_below x.types x.deep base params s
          (base_below base, AllBelow_lem params) o)
        λ r k. k.0
    where
      base_below : (base : Option ℕ) → OnBase (λ b. rank defining b < f) base
      base_below none = tt
      base_below (some b) = enough defining b
  function-Once t plain s y o = absurd y
  function-Once t (pointer v base) s y o = absurd y
  function-Once t (typedef_of same base) s y o = absurd y
  function-Once t (array_of base) s y o = absurd y
  function-Once t (modifier base) s y o = absurd y
  function-Once t (member_type only members failure) s y o = absurd y
  function-Once t (enumeration base) s y o = absurd y

  functions-Once :
      (fs : List (Name × Option ℕ)) (s : State)
      → AllFound (HasFunction x) fs
      → Once s
      → Ensures AnyError Once (define_functions x (resolve x.types x.deep f) fs s)
  unfolding define_functions
  functions-Once [] s y o = returns o
  functions-Once ((name, none) ∷ fs) s y o = functions-Once fs (report s) y.1 o
  functions-Once ((name, some h) ∷ fs) s y o =
      Ensures-bind (function-Once (x.type_of (some h)) (x.types (x.type_of (some h))).class s y.0 o)
        λ (b, s') o'. functions-Once fs s' y.1 o'

  round-Once :
      (next : State → Result State) (ts : List ℕ) (s : State)
      → ((s' : State) → Once s' → Ensures AnyError Once (next s'))
      → Once s
      → Ensures AnyError Once (round x (resolve x.types x.deep f) next ts s)
  unfolding round
  round-Once next [] s k o = returns o
  round-Once next (t ∷ ts) s k o =
      Ensures-bind
        (define_all-Kept rank f (resolve x.types x.deep f) call_below _ (record s { wanted = [] })
          (AllBelow_lem _) o)
        λ s' kept. k s' kept.0

  define_wanted-Once :
      (n : ℕ) (s : State)
      → Once s
      → Ensures AnyError Once (define_wanted x (resolve x.types x.deep f) n s)
  unfolding define_wanted
  define_wanted-Once zero s o = raises tt
  define_wanted-Once (suc n) s o =
      round-Once (define_wanted x (resolve x.types x.deep f) n) s.wanted s (define_wanted-Once n) o

  definitions-Once :
      (rounds : ℕ) (variables functions : List (Name × Option ℕ)) (s : State)
      → AllFound (HasFunction x) functions
      → Once s
      → Ensures AnyError Once (define_types_of x f rounds variables functions s)
  unfolding define_types_of
  definitions-Once rounds variables functions s y o =
      Ensures-bind (variables-Once variables s o) λ s1 o1.
        Ensures-bind
          (functions-Once (sorted (entry_lt x) functions) s1
            (sorted-AllFound (HasFunction x) (entry_lt x) functions y) o1)
          λ s2 o2. define_wanted-Once rounds s2 o2

  -- If each call in the methods of the types lowers a rank, with fuel for every call, no layout raises, no
  -- typedef is of void itself, and there are more than one round more than types that are pointers, the
  -- functions that were found have the types of functions, and each type that was defined before had what it
  -- needs, then the definitions that `write` makes return, and no statement is written twice, neither the class
  -- statement nor the fields of a structure or union, nor an enumeration, nor an alias; and each is for a type
  -- that is marked as declared or defined, if these two held before.
  pub define_types_of-Once :
      (pointers : List ℕ)
      → ((u : ℕ) → is_pointer_class (x.types u).class ≡ true → is_in u pointers ≡ true)
      → (rounds : ℕ) → length pointers + 1 < rounds
      → (variables functions : List (Name × Option ℕ)) → AllFound (HasFunction x) functions
      → (s : State) → Complete x.types s
      → Once s
      → (s' : State) × (define_types_of x f rounds variables functions s ≡ ok s') × Once s'
  define_types_of-Once pointers listed rounds r variables functions y s c o =
      let (s', e, done) =
        define_types_of-Complete x rank f ranked enough pointers listed rounds r variables functions
          s c in
      (s', e, Ensures-ok (definitions-Once rounds variables functions s y o) e)
