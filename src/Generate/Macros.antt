-- ===== src/Generate/Macros.antt =====
-- The macros of a generated module do not take the names of its types.
use ctypegen.Base.{ℕ, ◌+◌, ◌<◌, List, [], Bool, true, Option, none, some, Text, ◌≡◌, refl, length}
use ctypegen.Dwarf.{ok}
use ctypegen.Enums.{EnumType}
use ctypegen.Examine.Find.{TypeRef, World}
use ctypegen.Examine.Visit.{Found, Forest}
use ctypegen.Examine.Requests.{Requests, search_units}
use ctypegen.Generate.{Generated, macros_of, generate_macros, defined_names, generate_dwarf}
use ctypegen.Generate.Defined.{generate_types-AllSettled}
use ctypegen.Macro.Callback.{Tools, Event, Macro, Step, done, raised, listen, fresh}
use ctypegen.Macro.Scope.{Leaves, IsValid, Distinct}
use ctypegen.Macro.Returns.{Returns, nested, listen-IsValid}
use ctypegen.Macro.Untouched.{is_untouched, fresh-Untouched}
use ctypegen.Resolve.{is_in, Mode}
use ctypegen.Resolve.Ranked.{IsRanked}
use ctypegen.Write.{Sources}
use ctypegen.Write.Moves.{is_pointer_class}

-- Macros with names of their own.
abbrev pub HasOwnNames : List Text → List Macro → Type 0
HasOwnNames known ms = Distinct ms × (is_untouched known ms ≡ true)

macros_of-HasOwnNames :
    (interested : Text → Bool) (known : List Text) (r : Step)
    → Returns (IsValid interested) r
    → Leaves (λ s. is_untouched known s.output ≡ true) r
    → (ms : List Macro) × (macros_of r ≡ ok ms) × HasOwnNames known ms
macros_of-HasOwnNames interested known (done s) v u = (s.output, refl, (v.unique, u))
macros_of-HasOwnNames interested known (raised e) v u = absurd v

-- The events of the macros, if they are asked for, close a file only when it is open, and the arguments of each
-- definition can be read.
abbrev pub all_nested : Option Tools → List Event → Bool
all_nested none events = true
all_nested (some tools) events = nested tools 0 events

generate_macros-HasOwnNames :
    (tools : Option Tools) (known : List Text) (events : List Event)
    → all_nested tools events ≡ true
    → (ms : List Macro) × (generate_macros tools known events ≡ ok ms) × HasOwnNames known ms
unfolding generate_macros
generate_macros-HasOwnNames none known events h = ([], refl, (tt, refl))
generate_macros-HasOwnNames (some tools) known events h =
    macros_of-HasOwnNames tools.interested known (listen tools events (fresh known))
      (listen-IsValid tools events known h) (fresh-Untouched tools known events)

module _ (x : Sources) (w : World) (handle : TypeRef → ℕ) (rank : Mode → ℕ → ℕ) (calls : ℕ)
    (ranked : IsRanked x.types rank) (enough : (mode : Mode) (t : ℕ) → rank mode t < calls)
    (pointers : List ℕ)
    (listed : (u : ℕ) → is_pointer_class (x.types u).class ≡ true → is_in u pointers ≡ true)
    (rounds : ℕ) (more : length pointers + 1 < rounds) where
  -- If each call in the methods of the types lowers a rank, with fuel for every call, no layout raises, no
  -- typedef is of void itself, there are more than one round more than types that are pointers, the search
  -- returns, and the macros' events close a file only when it is open, and their definitions close the
  -- arguments they open, these being for python a name, a constant, a sequence of names and constants, or a
  -- SyntaxError, then the whole generator returns, and each macro that it writes has a name of its own: no
  -- other macro has it, and it is neither that of a type that is defined nor that of a value of a nameless
  -- enumeration among them.
  pub generate_dwarf-HasOwnNames :
      (f : ℕ) (r : Requests) (units : Forest) (found : Found) (py_name : ℕ → Text)
      (enums : ℕ → Option EnumType) (tools : Option Tools) (events : List Event)
      → search_units x.dies w f r units ≡ ok found
      → all_nested tools events ≡ true
      → (g : Generated) × (generate_dwarf x w handle f calls rounds r units py_name enums tools
            events
          ≡ ok g)
        × HasOwnNames (defined_names w.iskeyword py_name enums g.types.defined) g.macros
  unfolding generate_dwarf
  generate_dwarf-HasOwnNames f r units found py_name enums tools events e h =
      let (s, q, _) =
        generate_types-AllSettled x w handle rank calls ranked enough pointers listed rounds more f
          r units found e in
      let known = defined_names w.iskeyword py_name enums s.defined in
      let (ms, p, own) = generate_macros-HasOwnNames tools known events h in
      (record { types = s; macros = ms }, rw (q, p) refl, own)
