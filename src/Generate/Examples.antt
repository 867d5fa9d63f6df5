-- ===== src/Generate/Examples.antt =====
-- A library with a variable and a function, found and defined; and a generator without libraries.
use ctypegen.Base.{
  ℕ, zero, suc, ◌<◌, List, [], ◌∷◌, true, false, Option, none, some, Text, codes, text_eq, ◌≡◌,
  refl, arith, if◌then◌else◌, ◌==◌,
}
use ctypegen.Dwarf.{
  Die, Dwarf, Tag, variable, compile_unit, structure_type, pointer_type, subprogram, Result, ok,
  err, type_error, other_exception,
}
use ctypegen.Examine.Keys.{name_eq, name_mem, find_name, put_name}
use ctypegen.Examine.Find.{World}
use ctypegen.Examine.Visit.{
  Forest, end, child, node, Found, enumerate_all, examine_die, examine_variable, examine_function,
  examine_definition, is_open, add_producer,
}
use ctypegen.Examine.Requests.{
  Requests, listed, scopes, scopes_of_all, all_namespaces, is_wildcard, filters_of, open_names,
  fresh_found, search_units,
}
use ctypegen.Generate.{
  one, several, no_names, open_all, get_dwarves, complain, generate_from, generate, generate_types,
  Generated, defined_names, generate_dwarf,
}
use ctypegen.Enums.{EnumType}
use ctypegen.Macro.Callback.{
  refused, args_of, from_parsed, Tools, Event, defined_macro, file_started, file_ended, split,
  split_args, split_plain, find, all_but_last,
}
use ctypegen.Generate.Macros.{HasOwnNames, generate_dwarf-HasOwnNames}
use ctypegen.Generate.Ordered.{generate_types-IsOrdered, generate_types-Once}
use ctypegen.Resolve.{
  Class, plain, member_type, pointer, function, State, is_in, Mode, declaring, defining,
}
use ctypegen.Resolve.Once.{Once}
use ctypegen.Resolve.Readable.{IsOrdered}
use ctypegen.Resolve.Ordered.{AllSolid}
use ctypegen.Write.Moves.{is_pointer_class}
use ctypegen.Write.Ordered.{VariableWhole, FunctionReadable}
use ctypegen.Resolve.Needs.{Hollow, declared_only, array_hollow, modifier_hollow, typedef_hollow}
use ctypegen.Resolve.Ranked.{IsRanked}
use ctypegen.Write.{Sources}
use ctypegen.Write.Total.{AllFound}

abbrev entry : Tag → Option ℕ → Text → Die
entry tag type name = record {
  tag = tag;
  name = some name;
  fullname = name ∷ [];
  type = type;
  children = [];
  byte_size = none;
  bit_size = none;
  bit_offset = none;
  data_bit_offset = none;
  data_member_location = none;
  count = none;
  upper_bound = none;
  external = false;
  declaration = false;
}

-- struct list { struct list *next; } answer; struct list *first();
abbrev library : Dwarf
library zero = entry compile_unit none (codes "x.c")
library (suc zero) = entry variable (some 2) (codes "answer")
library (suc (suc zero)) = entry structure_type none (codes "list")
library (suc (suc (suc zero))) = entry pointer_type (some 2) []
library (suc (suc (suc (suc h)))) = entry subprogram (some 3) (codes "first")

-- 2 is the structure, 3 the pointer to it, and 4 the type of the function.
abbrev class_of : ℕ → Class
class_of zero = plain
class_of (suc zero) = plain
class_of (suc (suc zero)) = member_type false (3 ∷ []) none
class_of (suc (suc (suc zero))) = pointer false (some 2)
class_of (suc (suc (suc (suc t)))) = function (some 3) []

abbrev or_void : Option ℕ → ℕ
or_void none = 0
or_void (some h) = h

abbrev sources : Sources
sources = record {
  types = λ t. record {
    class = class_of t;
    has_die = true;
    is_void = false;
    is_foreign = false;
    is_declaration = false;
  };
  die_of = library;
  dies = library;
  type_of = or_void;
  deep = false;
  tag_number = λ tag. 0;
}

abbrev world : World
world = record {
  find_definition = λ h. none;
  existing = [];
  iskeyword = λ s. false;
  producer = λ h. none;
}

abbrev answer : Requests
answer = record {
  types = listed [];
  functions = listed ((codes "first" ∷ []) ∷ []);
  globals = listed ((codes "answer" ∷ []) ∷ []);
  namespace_filter = none;
}

abbrev units : Forest
units = child (node 0 (child (node 1 end) (child (node 4 end) end))) end

abbrev found : Found
found = record {
  tables = record { types = []; errors = 0 };
  variables = (codes "answer" ∷ [], some 1) ∷ [];
  functions = (codes "first" ∷ [], some 4) ∷ [];
  define_types = [];
  hints = [];
  producers = [];
}

search_run : search_units library world 1 answer units ≡ ok found
unfolding search_units enumerate_all examine_die examine_variable examine_function
    examine_definition is_open add_producer filters_of is_wildcard all_namespaces scopes
    scopes_of_all fresh_found open_names name_eq name_mem find_name put_name text_eq
search_run = refl

abbrev rank : Mode → ℕ → ℕ
rank declaring zero = 1
rank declaring (suc zero) = 1
rank declaring (suc (suc zero)) = 0
rank declaring (suc (suc (suc zero))) = 1
rank declaring (suc (suc (suc (suc t)))) = 3
rank defining zero = 0
rank defining (suc zero) = 0
rank defining (suc (suc zero)) = 2
rank defining (suc (suc (suc zero))) = 1
rank defining (suc (suc (suc (suc t)))) = 2

sources-IsRanked : IsRanked sources.types rank
sources-IsRanked zero = (omega arith, tt)
sources-IsRanked (suc zero) = (omega arith, tt)
sources-IsRanked (suc (suc zero)) = (tt, ((omega arith, tt), (omega arith, refl)))
sources-IsRanked (suc (suc (suc zero))) = (omega arith, omega arith)
sources-IsRanked (suc (suc (suc (suc t)))) = (omega arith, (omega arith, tt))

enough : (mode : Mode) (t : ℕ) → rank mode t < 4
enough declaring zero = omega arith
enough declaring (suc zero) = omega arith
enough declaring (suc (suc zero)) = omega arith
enough declaring (suc (suc (suc zero))) = omega arith
enough declaring (suc (suc (suc (suc t)))) = omega arith
enough defining zero = omega arith
enough defining (suc zero) = omega arith
enough defining (suc (suc zero)) = omega arith
enough defining (suc (suc (suc zero))) = omega arith
enough defining (suc (suc (suc (suc t)))) = omega arith

listed_pointers : (u : ℕ) → is_pointer_class (class_of u) ≡ true → is_in u (3 ∷ []) ≡ true
listed_pointers zero h = cc
listed_pointers (suc zero) h = cc
listed_pointers (suc (suc zero)) h = cc
listed_pointers (suc (suc (suc zero))) h = refl
listed_pointers (suc (suc (suc (suc t)))) h = cc

pointer-not_Hollow : ¬ Hollow sources.types 3
pointer-not_Hollow (declared_only t members failure e) = cc
pointer-not_Hollow (array_hollow t base e h) = cc
pointer-not_Hollow (modifier_hollow t base e h) = cc
pointer-not_Hollow (typedef_hollow t base same e h) = cc

sources-AllSolid : AllSolid sources.types
sources-AllSolid zero = tt
sources-AllSolid (suc zero) = tt
sources-AllSolid (suc (suc zero)) = tt
sources-AllSolid (suc (suc (suc zero))) = tt
sources-AllSolid (suc (suc (suc (suc t)))) = (pointer-not_Hollow, tt)

generate_types-IsOrdered_example :
    (s : State) × (generate_types sources world (λ t. 0) 1 4 3 answer units ≡ ok s)
    × (IsOrdered sources.types s.output
        × (AllFound (VariableWhole sources s.output) found.variables
            × AllFound (FunctionReadable sources s.output) found.functions))
generate_types-IsOrdered_example =
    generate_types-IsOrdered sources world (λ t. 0) rank 4 sources-IsRanked enough (3 ∷ [])
      listed_pointers 3 (omega arith) 1 answer units found search_run (tt, tt) sources-AllSolid

generate_types-Once_example :
    (s : State) × (generate_types sources world (λ t. 0) 1 4 3 answer units ≡ ok s) × Once s
generate_types-Once_example =
    generate_types-Once sources world (λ t. 0) rank 4 sources-IsRanked enough (3 ∷ [])
      listed_pointers 3 (omega arith) 1 answer units found search_run (tt, tt)

-- A header that defines the name of the structure, which stays, and a number.
abbrev tools : Tools
tools = record {
  interested = λ file. true;
  parse_args = λ text. refused;
  clean = λ value. some (value, []);
  existing = λ name. false;
}

abbrev header : List Event
header =
    file_started (codes "x.h")
    ∷ defined_macro 1 (codes "struct_list 1")
    ∷ defined_macro 2 (codes "N 4")
    ∷ file_ended
    ∷ []

abbrev identifier : ℕ → Text
identifier t = if t == 2 then codes "struct_list" else codes "other"

abbrev no_enums : ℕ → Option EnumType
no_enums t = none

generate_dwarf-HasOwnNames_example :
    (g : Generated) × (generate_dwarf sources world
        (λ t. 0)
        1
        4
        3
        answer
        units
        identifier
        no_enums
        (some tools)
        header
      ≡ ok g)
    × HasOwnNames (defined_names world.iskeyword identifier no_enums g.types.defined) g.macros
unfolding split split_args split_plain find all_but_last args_of from_parsed
generate_dwarf-HasOwnNames_example =
    generate_dwarf-HasOwnNames sources world (λ t. 0) rank 4 sources-IsRanked enough (3 ∷ [])
      listed_pointers 3 (omega arith) 1 answer units found identifier no_enums (some tools) header
      search_run refl

abbrev opened : Text → Result Text
opened name = ok name

abbrev generated : List Text → Result (List Text)
generated libs = ok libs

-- With neither libraries nor a function for errors, the message itself fails.
no_libraries_run : generate opened generated none no_names ≡ err type_error
unfolding generate get_dwarves generate_from complain
no_libraries_run = refl

no_names_run : generate opened generated (some (ok true)) (several []) ≡ err other_exception
unfolding generate get_dwarves generate_from complain
no_names_run = refl

one_library_run :
    generate opened generated none (one (codes "libc.so")) ≡ ok (some (codes "libc.so" ∷ []))
unfolding generate get_dwarves open_all generate_from complain
one_library_run = refl
