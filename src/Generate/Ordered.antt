-- ===== src/Generate/Ordered.antt =====
-- The types of a generated module stand in an order that python can read.
use ctypegen.Base.{ℕ, ◌+◌, ◌<◌, List, [], ◌∷◌, true, ◌≡◌, length}
use ctypegen.Dwarf.{ok}
use ctypegen.Examine.Find.{TypeRef, World}
use ctypegen.Examine.Visit.{Found, Forest}
use ctypegen.Examine.Requests.{Requests, search_units}
use ctypegen.Generate.{after_search, generate_types}
use ctypegen.Resolve.{TypeObject, State, is_in, Mode}
use ctypegen.Resolve.Ranked.{IsRanked}
use ctypegen.Resolve.Readable.{IsOrdered}
use ctypegen.Resolve.Ordered.{AllSolid, InOrder}
use ctypegen.Resolve.Once.{IsOnce, Once}
use ctypegen.Write.{Sources}
use ctypegen.Write.Moves.{is_pointer_class}
use ctypegen.Write.Single.{define_types_of-Once}
use ctypegen.Write.Total.{AllFound}
use ctypegen.Write.Ordered.{VariableWhole, FunctionReadable, HasFunction, define_types_of-IsOrdered}

nothing-IsOrdered : (types : ℕ → TypeObject) → IsOrdered types []
nothing-IsOrdered types [] w after e = cc
nothing-IsOrdered types (v ∷ before) w after e = cc

nothing-IsOnce : IsOnce []
nothing-IsOnce [] w after e h = h
nothing-IsOnce (v ∷ before) w after e h = cc

module _ (x : Sources) (w : World) (handle : TypeRef → ℕ) (rank : Mode → ℕ → ℕ) (calls : ℕ)
    (ranked : IsRanked x.types rank) (enough : (mode : Mode) (t : ℕ) → rank mode t < calls)
    (pointers : List ℕ)
    (listed : (u : ℕ) → is_pointer_class (x.types u).class ≡ true → is_in u pointers ≡ true)
    (rounds : ℕ) (more : length pointers + 1 < rounds) where
  -- If each call in the methods of the types lowers a rank, with fuel for every call, no layout raises, no
  -- typedef is of void itself, there are more than one round more than types that are pointers, and no
  -- function, array or enumeration is made from a type of which only a declaration was found, a generator whose
  -- search returns, with the types of functions for the functions that it found, writes types in an order that
  -- python can read: every statement stands behind what it uses, an alias behind all that the ctype of its base
  -- type uses, the fields of a structure or union behind its class statement and behind the types of its
  -- members, with the fields of each structure or union that they have by value, an enumeration behind its base
  -- type. What the ctypes of the functions that were found use is written then, and the types of the variables
  -- are, with their fields; members and variables may also be of types of which only a declaration was found.
  pub generate_types-IsOrdered :
      (f : ℕ) (r : Requests) (units : Forest) (found : Found)
      → search_units x.dies w f r units ≡ ok found
      → AllFound (HasFunction x) found.functions
      → AllSolid x.types
      → (s : State) × (generate_types x w handle f calls rounds r units ≡ ok s)
        × (IsOrdered x.types s.output
            × (AllFound (VariableWhole x s.output) found.variables
                × AllFound (FunctionReadable x s.output) found.functions))
  unfolding generate_types
  generate_types-IsOrdered f r units found e functions solid =
      let s0 = after_search handle found in
      let i : InOrder x.types s0 = (nothing-IsOrdered x.types, ((λ t h. cc), λ t h. cc)) in
      let (s, q, done) =
        define_types_of-IsOrdered x solid calls rank ranked enough pointers listed rounds more
          found.variables found.functions functions s0 (λ t h. cc) i in
      (s, rw e q, done)

  -- If each call in the methods of the types lowers a rank, with fuel for every call, no layout raises, no
  -- typedef is of void itself, and there are more than one round more than types that are pointers, a generator
  -- whose search returns, with the types of functions for the functions that it found, writes no statement of a
  -- type twice, neither the class statement nor the fields of a structure or union, nor an enumeration, nor an
  -- alias; and each is for a type that is marked as declared or defined.
  pub generate_types-Once :
      (f : ℕ) (r : Requests) (units : Forest) (found : Found)
      → search_units x.dies w f r units ≡ ok found
      → AllFound (HasFunction x) found.functions
      → (s : State) × (generate_types x w handle f calls rounds r units ≡ ok s) × Once s
  unfolding generate_types
  generate_types-Once f r units found e functions =
      let s0 = after_search handle found in
      let o : Once s0 = (nothing-IsOnce, λ v h. absurd h) in
      let (s, q, done) =
        define_types_of-Once x rank calls ranked enough pointers listed rounds more found.variables
          found.functions functions s0 (λ t h. cc) o in
      (s, rw e q, done)
