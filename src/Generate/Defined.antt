-- ===== src/Generate/Defined.antt =====
-- All that the search finds is defined.
use ctypegen.Base.{ℕ, ◌+◌, ◌<◌, List, [], ◌∷◌, true, ◌≡◌, refl, map, length, arith, ==_iff}
use ctypegen.Dwarf.{ok}
use ctypegen.Examine.Find.{TypeRef, World}
use ctypegen.Examine.Visit.{Found, Forest}
use ctypegen.Examine.Requests.{Requests, search_units}
use ctypegen.Generate.{after_search, generate_types}
use ctypegen.Resolve.{TypeObject, State, is_in, Mode}
use ctypegen.Resolve.Needs.{Settled, AllSettled}
use ctypegen.Resolve.Ranked.{IsRanked}
use ctypegen.Write.{Sources}
use ctypegen.Write.Moves.{is_pointer_class}
use ctypegen.Write.Total.{AllFound, VariableSettled, FunctionReady, define_types_of-Complete}

AllSettled_lem :
    (types : ℕ → TypeObject) (s : State) (ts : List ℕ)
    → ((t : ℕ) → is_in t ts ≡ true → Settled types s t)
    → AllSettled types s ts
AllSettled_lem types s [] h = tt
AllSettled_lem types s (t ∷ ts) h = (
  h t (ground (arith, (==_iff t t).1 refl)),
  AllSettled_lem types s ts (λ u k. h u (ground arith)),
)

module _ (x : Sources) (w : World) (handle : TypeRef → ℕ) (rank : Mode → ℕ → ℕ) (calls : ℕ)
    (ranked : IsRanked x.types rank) (enough : (mode : Mode) (t : ℕ) → rank mode t < calls)
    (pointers : List ℕ)
    (listed : (u : ℕ) → is_pointer_class (x.types u).class ≡ true → is_in u pointers ≡ true)
    (rounds : ℕ) (more : length pointers + 1 < rounds) where
  -- If each call in the methods of the types lowers a rank, with fuel for every call, no layout raises, no
  -- typedef is of void itself, and there are more than one round more than types that are pointers, a generator
  -- whose search returns defines what was found: the types that were kept and those of the variables are
  -- defined or cannot be, and what the types of the functions need is declared or defined, unless it cannot be;
  -- no type is left to define.
  pub generate_types-AllSettled :
      (f : ℕ) (r : Requests) (units : Forest) (found : Found)
      → search_units x.dies w f r units ≡ ok found
      → (s : State) × (generate_types x w handle f calls rounds r units ≡ ok s)
        × ((s.wanted ≡ [])
            × (AllSettled x.types s (map handle found.define_types)
                × (AllFound (VariableSettled x s) found.variables
                    × AllFound (FunctionReady x s) found.functions)))
  unfolding generate_types
  generate_types-AllSettled f r units found e =
      let (s, q, (c, (w', (settled, (vs, fs))))) =
        define_types_of-Complete x rank calls ranked enough pointers listed rounds more
          found.variables found.functions (after_search handle found) (λ t h. cc) in
      (
        s,
        rw e q,
        (w', (AllSettled_lem x.types s (map handle found.define_types) settled, (vs, fs))),
      )
