-- ===== src/Write.antt =====
-- CTypeGen/__init__.py: `TypeResolver.write`, up to the definitions of types: the types of variables, those
-- of functions, and the rounds over `defineTypes`.
pub mod Moves
pub mod Progress
pub mod Rounds
pub mod Total
pub mod Ordered
pub mod Single
pub mod Library
pub mod Sorted
pub mod Prototypes
pub mod Globals
mod Examples
use ctypegen.Base.{
  ℕ, zero, suc, ◌+◌, List, [], ◌∷◌, Bool, true, false, Option, none, some, Text, if◌then◌else◌, ltb,
  ◌==◌,
}
use ctypegen.Dwarf.{Tag, Die, Dwarf, Result, ok, err, out_of_fuel, ◌>>=◌}
use ctypegen.Examine.Keys.{Name, name_eq}
use ctypegen.Resolve.{TypeObject, State, is_in, Mode, defining, Visit, define_all, define, resolve}

-- The order of python's strings, by code points.
unfoldable pub text_lt : Text → Text → Bool
text_lt s [] = false
text_lt [] (d ∷ t) = true
text_lt (c ∷ s) (d ∷ t) = let rest = text_lt s t in if c == d then rest else ltb c d

-- The order of tuples of strings.
unfoldable pub name_lt : Name → Name → Bool
name_lt m [] = false
name_lt [] (t ∷ n) = true
name_lt (s ∷ m) (t ∷ n) =
    let rest = name_lt m n in if ctypegen.Base.text_eq s t then rest else text_lt s t

-- `Type.__lt__`, from the entries of the types; the numbers of tags are those of DWARF.
unfoldable pub die_lt : (Tag → ℕ) → Die → Die → Bool
die_lt tag_number d e =
    if name_eq d.fullname e.fullname
    then ltb (tag_number d.tag) (tag_number e.tag)
    else name_lt d.fullname e.fullname

-- `sorted`, by a test of what comes first.
unfoldable pub insert {ℓ} : {A : Type ℓ} → (A → A → Bool) → A → List A → List A
insert lt x [] = x ∷ []
insert lt x (y ∷ ys) = let rest = insert lt x ys in if lt y x then y ∷ rest else x ∷ y ∷ ys

unfoldable pub sorted {ℓ} : {A : Type ℓ} → (A → A → Bool) → List A → List A
sorted lt [] = []
sorted lt (x ∷ xs) = insert lt x (sorted lt xs)

-- The members of a set of types, each once.
unfoldable pub distinct : List ℕ → List ℕ
distinct [] = []
distinct (t ∷ ts) = let rest = distinct ts in if is_in t ts then rest else t ∷ rest

-- What `write` reads: the types, their entries, the entries of the library, the type object that `dieToType`
-- gives for an entry, if it can look through pointers, and the numbers of tags.
pub record Sources : Type 0 where
  pub types : ℕ → TypeObject
  pub die_of : ℕ → Die
  pub dies : Dwarf
  pub type_of : Option ℕ → ℕ
  pub deep : Bool
  pub tag_number : Tag → ℕ

abbrev pub report : State → State
report s = record s { errors = s.errors + 1 }

module _ (x : Sources) where
  open x use {types, die_of, dies, type_of, deep, tag_number}

  abbrev pub type_lt : ℕ → ℕ → Bool
  type_lt t u = die_lt tag_number (die_of t) (die_of u)

  -- The loop over the variables.
  unfoldable pub define_variables : Visit → List (Name × Option ℕ) → State → Result State
  define_variables visit [] s = ok s
  define_variables visit ((name, none) ∷ rest) s = define_variables visit rest (report s)
  define_variables visit ((name, some h) ∷ rest) s = do
    (b, s') ← visit defining (type_of (dies h).type) s
    define_variables visit rest s'

  -- The loop over the functions, in the order of their names.
  unfoldable pub define_functions : Visit → List (Name × Option ℕ) → State → Result State
  define_functions visit [] s = ok s
  define_functions visit ((name, none) ∷ rest) s = define_functions visit rest (report s)
  define_functions visit ((name, some h) ∷ rest) s = do
    let t = type_of (some h)
    (b, s') ← define types deep visit t (types t).class s
    define_functions visit rest s'

  -- One round of the `while` loop: `defineTypes` is emptied, and its types are defined.
  unfoldable pub round : Visit → (State → Result State) → List ℕ → State → Result State
  round visit next [] s = ok s
  round visit next (t ∷ ts) s = do
    s' ← define_all visit (sorted type_lt (distinct (t ∷ ts))) (record s { wanted = [] })
    next s'

  -- The `while` loop.
  unfoldable pub define_wanted : Visit → ℕ → State → Result State
  define_wanted visit zero s = err out_of_fuel
  define_wanted visit (suc n) s = round visit (define_wanted visit n) s.wanted s

  abbrev pub entry_lt : Name × Option ℕ → Name × Option ℕ → Bool
  entry_lt (m, h) (n, k) = name_lt m n

  -- The definitions of `write`, with the fuel of calls and of rounds.
  unfoldable pub define_types_of :
      ℕ → ℕ → List (Name × Option ℕ) → List (Name × Option ℕ) → State → Result State
  define_types_of f rounds variables functions s = do
    s' ← define_variables (resolve types deep f) variables s
    s'' ← define_functions (resolve types deep f) (sorted entry_lt functions) s'
    define_wanted (resolve types deep f) rounds s''
