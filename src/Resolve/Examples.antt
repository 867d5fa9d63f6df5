-- ===== src/Resolve/Examples.antt =====
-- A list in C, whose nodes point to one another by the name that a typedef gives.
use ctypegen.Base.{ℕ, zero, suc, List, [], ◌∷◌, Bool, true, false, none, some, ◌≡◌, refl, arith}
use ctypegen.Dwarf.{Result, ok, err}
use ctypegen.Resolve.{
  declare_plain, declare_base, declare_typedef, declare_member, define_function, define_pointer,
  define_typedef, define_member, define_enum, Class, plain, pointer, typedef_of, member_type,
  TypeObject, State, Written, class_statement, fields, alias, Mode, declaring, defining, resolve,
  declare_type, define_type, declare, define, want, visit_base, define_all, write_alias,
  write_fields, mark_declared, mark_defined,
}
use ctypegen.Resolve.Needs.{After, Complete}
use ctypegen.Resolve.Ranked.{IsRanked}
use ctypegen.Resolve.Total.{resolve-Complete, resolve-resolve}

-- struct node { int value; node_t *next; } with typedef struct node node_t.
abbrev class_of : ℕ → Class
class_of zero = member_type false (1 ∷ 2 ∷ []) none
class_of (suc zero) = plain
class_of (suc (suc zero)) = pointer false (some 3)
class_of (suc (suc (suc zero))) = typedef_of false (some 0)
class_of (suc (suc (suc (suc t)))) = plain

abbrev node_types : ℕ → TypeObject
node_types t = record {
  class = class_of t;
  has_die = true;
  is_void = false;
  is_foreign = false;
  is_declaration = false;
}

abbrev empty : State
empty = record { declared = []; defined = []; wanted = []; output = []; errors = 0 }

abbrev node_rank : Mode → ℕ → ℕ
node_rank declaring zero = 0
node_rank declaring (suc zero) = 1
node_rank declaring (suc (suc zero)) = 2
node_rank declaring (suc (suc (suc zero))) = 1
node_rank declaring (suc (suc (suc (suc t)))) = 1
node_rank defining zero = 3
node_rank defining (suc zero) = 0
node_rank defining (suc (suc zero)) = 2
node_rank defining (suc (suc (suc zero))) = 4
node_rank defining (suc (suc (suc (suc t)))) = 0

node-IsRanked : IsRanked node_types node_rank
node-IsRanked zero = (tt, ((omega arith, (omega arith, tt)), (omega arith, refl)))
node-IsRanked (suc zero) = (omega arith, tt)
node-IsRanked (suc (suc zero)) = (omega arith, omega arith)
node-IsRanked (suc (suc (suc zero))) = (omega arith, ((omega arith, omega arith), omega arith))
node-IsRanked (suc (suc (suc (suc t)))) = (omega arith, tt)

nothing_defined : Complete node_types empty
nothing_defined t h = cc

abbrev output_of : Result (Bool × State) → List Written
output_of (ok (b, s)) = s.output
output_of (err e) = []

-- The typedef comes first, before the fields that use it.
node_run :
    output_of (resolve node_types false 5 defining 3 empty)
    ≡ class_statement 0 ∷ alias 3 ∷ fields 0 ∷ []
unfolding resolve declare_type define_type declare define declare_plain declare_base declare_typedef
    declare_member define_function define_pointer define_typedef define_member define_enum want
    visit_base define_all write_alias write_fields mark_declared mark_defined
node_run = refl

resolve-Complete_example :
    (r : Bool × State) × (resolve node_types false 5 defining 3 empty ≡ ok r)
    × After node_types defining 3 empty r
resolve-Complete_example =
    resolve-Complete node_types false node_rank 5 defining 3 empty node-IsRanked (omega arith)
      nothing_defined

abbrev resolved : State
resolved = record {
  declared = 3 ∷ 0 ∷ [];
  defined = 3 ∷ 0 ∷ 2 ∷ 1 ∷ [];
  wanted = [];
  output = class_statement 0 ∷ alias 3 ∷ fields 0 ∷ [];
  errors = 0;
}

node_resolved : resolve node_types false 5 defining 3 empty ≡ ok (true, resolved)
unfolding resolve declare_type define_type declare define declare_plain declare_base declare_typedef
    declare_member define_function define_pointer define_typedef define_member define_enum want
    visit_base define_all write_alias write_fields mark_declared mark_defined
node_resolved = refl

resolve-resolve_example : resolve node_types false 1 defining 3 resolved ≡ ok (true, resolved)
resolve-resolve_example =
    resolve-resolve node_types false node_rank 5 0 defining 3 empty resolved node-IsRanked
      (omega arith) nothing_defined refl node_resolved
