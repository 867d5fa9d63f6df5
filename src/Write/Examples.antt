-- ===== src/Write/Examples.antt =====
-- A variable whose type points to another structure, a function that is missing, and one with two names.
use ctypegen.Base.{
  ℕ, zero, suc, ◌<◌, List, [], ◌∷◌, Bool, true, false, Option, none, some, Text, codes, text_eq,
  text_mem, ◌≡◌, refl, arith,
}
use ctypegen.Dwarf.{Die, Tag, structure_type, other, Result, ok, err}
use ctypegen.Examine.Keys.{Name, tag_number, name_eq}
use ctypegen.Names.{
  tag_prefix, flat_name, join_scopes, escape, escape_char, replacement, avoid_keyword,
}
use ctypegen.Resolve.{
  declare_plain, declare_base, declare_typedef, declare_member, define_function, define_pointer,
  define_typedef, define_member, define_enum, Class, plain, pointer, member_type, State, is_in,
  Written, class_statement, fields, Mode, declaring, defining, resolve, declare_type, define_type,
  declare, define, want, visit_base, define_all, write_fields, mark_declared, mark_defined,
}
use ctypegen.Resolve.Needs.{Settled, Complete}
use ctypegen.Resolve.Ranked.{IsRanked}
use ctypegen.Write.{
  text_lt, name_lt, die_lt, insert, sorted, distinct, Sources, define_variables, define_functions,
  round, define_wanted, define_types_of,
}
use ctypegen.Write.Moves.{is_pointer_class}
use ctypegen.Write.Total.{AllFound, VariableSettled, FunctionReady, define_types_of-Complete}
use ctypegen.Write.Library.{
  Function, Updates, linker_name, names_at, dynamic_names, distinct_names, linker_names, arg_texts,
  restype_text, write_lib_updates,
}
use ctypegen.Write.Sorted.{IsAscending}
use ctypegen.Write.Prototypes.{updated, write_lib_updates_lem}
use ctypegen.Write.Globals.{Known, aliases_of, aliases_in, unambiguous}

-- struct a { struct b *next; }, where 1 is the pointer, 2 the structure b, and 3 what is left of void.
abbrev class_of : ℕ → Class
class_of zero = member_type false (1 ∷ []) none
class_of (suc zero) = pointer false (some 2)
class_of (suc (suc zero)) = member_type false [] none
class_of (suc (suc (suc t))) = plain

abbrev entry : Tag → Option ℕ → List Text → Die
entry tag type fullname = record {
  tag = tag;
  name = none;
  fullname = fullname;
  type = type;
  children = [];
  byte_size = none;
  bit_size = none;
  bit_offset = none;
  data_bit_offset = none;
  data_member_location = none;
  count = none;
  upper_bound = none;
  external = false;
  declaration = false;
}

abbrev or_void : Option ℕ → ℕ
or_void none = 3
or_void (some h) = h

abbrev sources : Sources
sources = record {
  types = λ t. record {
    class = class_of t;
    has_die = true;
    is_void = false;
    is_foreign = false;
    is_declaration = false;
  };
  die_of = λ t. entry structure_type none [];
  dies = λ h. entry (other 0) (some 0) [];
  type_of = or_void;
  deep = true;
  tag_number = tag_number;
}

abbrev empty : State
empty = record { declared = []; defined = []; wanted = []; output = []; errors = 0 }

abbrev variables : List (Name × Option ℕ)
variables = (codes "list" ∷ [], some 9) ∷ []

abbrev functions : List (Name × Option ℕ)
functions = (codes "gone" ∷ [], none) ∷ []

abbrev written : Result State → List Written × ℕ
written (ok s) = (s.output, s.errors)
written (err e) = ([], 0)

definitions_run :
    written (define_types_of sources 3 3 variables functions empty)
    ≡ (class_statement 0 ∷ class_statement 2 ∷ fields 0 ∷ fields 2 ∷ [], 1)
unfolding define_types_of define_variables define_functions define_wanted round sorted insert
    distinct die_lt name_lt name_eq resolve declare_type define_type declare define declare_plain
    declare_base declare_typedef declare_member define_function define_pointer define_typedef
    define_member define_enum want visit_base define_all write_fields mark_declared mark_defined
    tag_number
definitions_run = refl

abbrev rank : Mode → ℕ → ℕ
rank declaring zero = 0
rank declaring (suc zero) = 1
rank declaring (suc (suc zero)) = 0
rank declaring (suc (suc (suc t))) = 1
rank defining zero = 2
rank defining (suc zero) = 1
rank defining (suc (suc zero)) = 1
rank defining (suc (suc (suc t))) = 0

sources-IsRanked : IsRanked sources.types rank
sources-IsRanked zero = (tt, ((omega arith, tt), (omega arith, refl)))
sources-IsRanked (suc zero) = (omega arith, omega arith)
sources-IsRanked (suc (suc zero)) = (tt, (tt, (omega arith, refl)))
sources-IsRanked (suc (suc (suc t))) = (omega arith, tt)

enough : (mode : Mode) (t : ℕ) → rank mode t < 3
enough declaring zero = omega arith
enough declaring (suc zero) = omega arith
enough declaring (suc (suc zero)) = omega arith
enough declaring (suc (suc (suc t))) = omega arith
enough defining zero = omega arith
enough defining (suc zero) = omega arith
enough defining (suc (suc zero)) = omega arith
enough defining (suc (suc (suc t))) = omega arith

listed : (u : ℕ) → is_pointer_class (sources.types u).class ≡ true → is_in u (1 ∷ []) ≡ true
listed zero h = cc
listed (suc zero) h = refl
listed (suc (suc zero)) h = cc
listed (suc (suc (suc u))) h = cc

nothing_defined : Complete sources.types empty
nothing_defined t h = cc

define_types_of-Complete_example :
    (s' : State) × (define_types_of sources 3 3 variables functions empty ≡ ok s')
    × (Complete sources.types s'
        × ((s'.wanted ≡ [])
            × (((t : ℕ) → is_in t [] ≡ true → Settled sources.types s' t)
                × (AllFound (VariableSettled sources s') variables
                    × AllFound (FunctionReady sources s') functions))))
define_types_of-Complete_example =
    define_types_of-Complete sources rank 3 sources-IsRanked enough (1 ∷ []) listed 3 (omega arith)
      variables functions empty nothing_defined

-- A function with the names read and raise at its address.
abbrev reader : Function
reader = record {
  object = record {
    dynaddrs = λ address. some (codes "read" ∷ codes "raise" ∷ []);
    symbol = λ name. true;
  };
  name = codes "read";
  linkage_name = none;
  low_pc = some 16;
  external = true;
  returned = none;
  params = some 4 ∷ none ∷ [];
}

abbrev is_raise : Text → Bool
is_raise name = text_eq name (codes "raise")

abbrev c_int : ℕ → Result Text
c_int t = ok (codes "c_int")

abbrev fresh : Updates
fresh = record { prototypes = []; errors = 0 }

linker_names_run : linker_names reader ≡ codes "raise" ∷ codes "read" ∷ []
unfolding dynamic_names names_at linker_name distinct_names text_mem text_eq sorted insert text_lt
linker_names_run = refl

restype_run : restype_text is_raise c_int none ≡ ok (codes "None")
unfolding restype_text
restype_run = refl

arg_texts_run :
    arg_texts is_raise c_int (some 4 ∷ none ∷ []) ≡ ok (codes "c_int" ∷ codes "void" ∷ [])
unfolding arg_texts
arg_texts_run = refl

write_lib_updates_example :
    (write_lib_updates is_raise c_int reader fresh
      ≡ ok (
          updated is_raise
            (codes "None")
            (codes "c_int" ∷ codes "void" ∷ [])
            (linker_names reader)
            fresh))
    × (IsAscending (linker_names reader)
        × ((t : Text) → text_mem t (linker_names reader) ≡ text_mem t (dynamic_names reader)))
write_lib_updates_example =
    write_lib_updates_lem is_raise c_int reader (codes "None") (codes "c_int" ∷ codes "void" ∷ [])
      restype_run arg_texts_run fresh

abbrev known : Known
known = record {
  die = entry structure_type none (codes "list" ∷ []);
  is_external = false;
  is_defined = true;
}

alias_run :
    unambiguous is_raise ((codes "list" ∷ [], (structure_type, known) ∷ []) ∷ [])
    ≡ record { name = codes "list"; value = codes "struct_list" } ∷ []
unfolding unambiguous aliases_of aliases_in sorted insert flat_name tag_prefix join_scopes escape
    escape_char replacement avoid_keyword text_eq
alias_run = refl
