-- ===== src/Examine/Examples.antt =====
-- A library with two namespaces, and the search for one function.
use ctypegen.Base.{
  ℕ, zero, suc, List, [], ◌∷◌, false, Option, none, some, Text, codes, ◌≡◌, refl, sym, ◌∙◌, ◌<◌,
  arith, text_eq, text_mem, if◌then◌else◌,
}
use ctypegen.Dwarf.{
  Tag, typedef, base_type, compile_unit, namespace, subprogram, Dwarf, Die, Result, ok, err,
}
use ctypegen.Examine.Keys.{Name, name_eq, name_mem, find_name, put_name}
use ctypegen.Examine.Find.{World, Tables, type_of_die}
use ctypegen.Examine.Visit.{
  Forest, end, child, node, Found, enumerate_all, examine_die, examine_definition, examine_function,
  examine_type, is_open, add_producer,
}
use ctypegen.Examine.Requests.{
  Requests, listed, scopes, scopes_of_all, all_namespaces, is_wildcard, filters_of, open_names,
  fresh_found, search_units,
}
use ctypegen.Examine.Pruned.{IsScoped, AllScoped, unpruned}
use ctypegen.Examine.Search.{search_units-unpruned}
use ctypegen.Dwarf.Ensures.{Ensures}
use ctypegen.Examine.Kept.{IsRanked, OnlyAttribute, IsKept, type_of_die-IsKept}
use ctypegen.Examine.Sound.{FoundStays, IsSound, IsTaken}
use ctypegen.Examine.Asked.{onto_first, split_name, requests_of}
use ctypegen.Examine.Scopes.{by_text, filters_of-requests_of}
use ctypegen.Examine.Visit.{refused, wanted}
use ctypegen.Names.{join_scopes}
use ctypegen.Examine.Complete.{ReachedIn, enumerate_all-IsComplete}

abbrev entry : Tag → Option Text → Name → Die
entry tag name fullname = record {
  tag = tag;
  name = name;
  fullname = fullname;
  type = none;
  children = [];
  byte_size = none;
  bit_size = none;
  bit_offset = none;
  data_bit_offset = none;
  data_member_location = none;
  count = none;
  upper_bound = none;
  external = false;
  declaration = false;
}

-- namespace a { void f(); } namespace b { void g(); }
abbrev library : Dwarf
library zero = entry compile_unit (some (codes "x.cc")) (codes "x.cc" ∷ [])
library (suc zero) = entry namespace (some (codes "a")) (codes "a" ∷ [])
library (suc (suc zero)) = entry subprogram (some (codes "f")) (codes "a" ∷ codes "f" ∷ [])
library (suc (suc (suc zero))) = entry namespace (some (codes "b")) (codes "b" ∷ [])
library (suc (suc (suc (suc h)))) = entry subprogram (some (codes "g")) (codes "b" ∷ codes "g" ∷ [])

abbrev world : World
world = record {
  find_definition = λ h. none;
  existing = [];
  iskeyword = λ s. false;
  producer = λ h. none;
}

abbrev library_units : Forest
library_units =
    child
      (node 0
        (child (node 1 (child (node 2 end) end)) (child (node 3 (child (node 4 end) end)) end)))
      end

abbrev only_f : Requests
only_f = record {
  types = listed [];
  functions = listed ((codes "a" ∷ codes "f" ∷ []) ∷ []);
  globals = listed [];
  namespace_filter = none;
}

abbrev functions_of : Result Found → List (Name × Option ℕ)
functions_of (ok s) = s.functions
functions_of (err e) = []

search_run :
    functions_of (search_units library world 1 only_f library_units)
    ≡ (codes "a" ∷ codes "f" ∷ [], some 2) ∷ []
unfolding search_units enumerate_all examine_die examine_definition examine_function examine_type
    is_open add_producer filters_of is_wildcard all_namespaces scopes scopes_of_all fresh_found
    open_names name_eq name_mem find_name put_name text_eq
search_run = refl

library-IsScoped_first : IsScoped library (node 1 (child (node 2 end) end))
library-IsScoped_first =
    (((tt, λ n. cc), tt), λ n. ((codes "a", [], refl), ((codes "f", [], refl), (refl, tt))))

library-IsScoped_second : IsScoped library (node 3 (child (node 4 end) end))
library-IsScoped_second =
    (((tt, λ n. cc), tt), λ n. ((codes "b", [], refl), ((codes "g", [], refl), (refl, tt))))

library-AllScoped : AllScoped library library_units
library-AllScoped = (((library-IsScoped_first, (library-IsScoped_second, tt)), λ n. cc), tt)

search_units-unpruned_example :
    search_units library world 1 only_f library_units
    ≡ enumerate_all library world (unpruned library only_f) 1 library_units (fresh_found only_f)
search_units-unpruned_example =
    search_units-unpruned library world 1 only_f library_units refl library-AllScoped

some_not_none : {k : ℕ} → none ≡ some k → ⊥
some_not_none e = cc

library_type : (h : ℕ) → (library h).type ≡ none
library_type zero = refl
library_type (suc zero) = refl
library_type (suc (suc zero)) = refl
library_type (suc (suc (suc zero))) = refl
library_type (suc (suc (suc (suc h)))) = refl

library-IsRanked : IsRanked library world (λ h. 0)
library-IsRanked = (λ h k e. absurd (some_not_none (sym (library_type h) ∙ e)), λ h g k e. cc)

enumerate_all-IsComplete_example :
    Ensures OnlyAttribute
      (λ s.
        FoundStays library (filters_of library only_f) (fresh_found only_f) s
        × (IsSound library (filters_of library only_f) (fresh_found only_f)
            → IsSound library (filters_of library only_f) s)
        × ((h : ℕ)
            → ReachedIn library (filters_of library only_f) h library_units
            → IsTaken library (filters_of library only_f) h s))
      (enumerate_all library world (filters_of library only_f) 2 library_units (fresh_found only_f))
enumerate_all-IsComplete_example =
    enumerate_all-IsComplete library (filters_of library only_f) world (λ h. 0) 2 library_units
      (fresh_found only_f) library-IsRanked (λ h. omega arith)

-- typedef int number;
abbrev number_types : Dwarf
number_types zero = record (entry typedef (some (codes "number")) (codes "number" ∷ [])) {
  type = some 1;
}
number_types (suc h) = entry base_type (some (codes "int")) (codes "int" ∷ [])

abbrev number_rank : ℕ → ℕ
number_rank zero = 1
number_rank (suc h) = 0

number-IsRanked : IsRanked number_types world number_rank
number-IsRanked = (ranks, λ h g k e. cc)
  where
    ranks : (h k : ℕ) → (number_types h).type ≡ some k → number_rank k < number_rank h
    ranks zero zero e = ground arith
    ranks zero (suc k) e = omega arith
    ranks (suc h) k e = cc

abbrev no_types : Tables
no_types = record { types = []; errors = 0 }

type_of_die-IsKept_example :
    Ensures OnlyAttribute
      (IsKept number_types world number_rank number-IsRanked 0 no_types)
      (type_of_die number_types world 3 0 no_types)
type_of_die-IsKept_example =
    type_of_die-IsKept number_types world number_rank number-IsRanked 3 0 no_types (omega arith)

-- Three colons are two and one; a scope with arguments of its own is split in them.
split_run : split_name (codes "a:::f") ≡ codes "a" ∷ codes ":f" ∷ []
unfolding split_name onto_first
split_run = refl

split_arguments_run : split_name (codes "a<b::c>::f") ≡ codes "a<b" ∷ codes "c>" ∷ codes "f" ∷ []
unfolding split_name onto_first
split_arguments_run = refl

filters_of-requests_of_example :
    let f = filters_of library (requests_of (by_text [] (codes "a::f" ∷ []) [] none)) in
    let asked = join_scopes (codes "a" ∷ codes "f" ∷ []) in
    (f.types 2 ≡ (if text_mem asked [] then wanted else refused))
    × ((f.functions 2 ≡ text_mem asked (codes "a::f" ∷ [])) × (f.globals 2 ≡ text_mem asked []))
filters_of-requests_of_example =
    filters_of-requests_of library 2 (codes "a") (codes "f" ∷ []) [] (codes "a::f" ∷ []) [] none
      refl ((refl, tt), ((refl, tt), tt))
