-- ===== src/Resolve.antt =====
-- CTypeGen/__init__.py: `TypeResolver.declareType` and `defineType`, with the `declare` and `define` of
-- the classes of types. A type object is a number, and `types` gives what the object holds.
pub mod Needs
pub mod Ranked
pub mod Bodies
pub mod Total
pub mod Readable
pub mod Ordered
pub mod Statements
pub mod Definitions
pub mod Sequence
pub mod Once
pub mod Marks
mod Examples
use ctypegen.Base.{
  ℕ, zero, suc, ◌+◌, List, [], ◌∷◌, ◌++◌, Bool, true, false, not, ◌&&◌, ◌||◌, Option, none, some,
  any, if◌then◌else◌, ◌==◌,
}
use ctypegen.Dwarf.{Error, Result, ok, err, attribute_error, out_of_fuel, ◌>>=◌}

-- The class of a type, with what its methods look at: the base type, the types of parameters or of
-- members. A pointer knows if it renders as c_void_p, a typedef if its name is that of its base, and a
-- structure or union if only its declaration was found, and what laying out its members raises.
pub data Class : Type 0 where
  plain : Class
  function : Option ℕ → List ℕ → Class
  pointer : Bool → Option ℕ → Class
  typedef_of : Bool → Option ℕ → Class
  array_of modifier : Option ℕ → Class
  member_type : Bool → List ℕ → Option Error → Class
  enumeration : Option ℕ → Class

-- A type object. `is_void` is `isVoid( typ.definition() )`, and `is_foreign` says that the resolver is
-- another one.
pub record TypeObject : Type 0 where
  pub class : Class
  pub has_die : Bool
  pub is_void : Bool
  pub is_foreign : Bool
  pub is_declaration : Bool

-- What is written, by its contents.
pub data Written : Type 0 where
  class_statement fields enum_class alias : ℕ → Written

-- The types with `declared`, those with `defined` (whose names `self.defined` holds), `defineTypes`,
-- the text and the number of errors.
pub record State : Type 0 where
  pub declared : List ℕ
  pub defined : List ℕ
  pub wanted : List ℕ
  pub output : List Written
  pub errors : ℕ

abbrev pub is_in : ℕ → List ℕ → Bool
is_in t ts = any (λ s. s == t) ts

abbrev pub write : Written → State → State
write w s = record s { output = s.output ++ w ∷ [] }

-- The two wrappers, which call one another: each call is one of them on a type.
pub data Mode : Type 0 where
  declaring defining : Mode

abbrev pub Visit : Type 0
Visit = Mode → ℕ → State → Result (Bool × State)

-- A call on a base type that may be absent.
unfoldable pub visit_base : Visit → Mode → Option ℕ → State → Result (Bool × State)
visit_base visit mode none s = ok (true, s)
visit_base visit mode (some t) s = visit mode t s

-- The loop that defines the types of parameters or of members, whatever each call answers.
unfoldable pub define_all : Visit → List ℕ → State → Result State
define_all visit [] s = ok s
define_all visit (t ∷ ts) s = do (b, s') ← visit defining t s; define_all visit ts s'

-- `Typedef.declare` behind the call on the base type; `ctype` of an absent base type fails.
unfoldable pub write_alias : ℕ → Bool → Option ℕ → State → Result State
write_alias t same none s = err attribute_error
write_alias t same (some base) s = ok (if same then s else write (alias t) s)

-- The fields of a structure or union, whose layout may raise, with all that is written about them.
unfoldable pub write_fields : ℕ → Option Error → State → Result (Bool × State)
write_fields t (some e) s = err e
write_fields t none s = ok (true, write (fields t) s)

-- `Type.declare`: a class with no `declare` of its own defines the type.
unfoldable pub declare_plain : Visit → ℕ → State → Result State
declare_plain visit t s = do (b, s') ← visit defining t s; ok s'

-- `PointerType.declare` and `ModifierType.declare`
unfoldable pub declare_base : Visit → Option ℕ → State → Result State
declare_base visit base s = do (b, s') ← visit_base visit declaring base s; ok s'

-- `Typedef.declare`
unfoldable pub declare_typedef : Visit → ℕ → Bool → Option ℕ → State → Result State
declare_typedef visit t same base s = do
  (b, s') ← visit_base visit declaring base s
  write_alias t same base s'

-- `MemberType.declare`
unfoldable pub declare_member : ℕ → State → Result State
declare_member t s = ok (write (class_statement t) s)

-- `declare`, by the class of the type.
unfoldable pub declare : Visit → ℕ → Class → State → Result State
declare visit t (pointer is_voidp base) s = declare_base visit base s
declare visit t (modifier base) s = declare_base visit base s
declare visit t (typedef_of same base) s = declare_typedef visit t same base s
declare visit t (member_type only members failure) s = declare_member t s
declare visit t plain s = declare_plain visit t s
declare visit t (function base params) s = declare_plain visit t s
declare visit t (array_of base) s = declare_plain visit t s
declare visit t (enumeration base) s = declare_plain visit t s

-- `FunctionType.define`
unfoldable pub define_function : Visit → Option ℕ → List ℕ → State → Result (Bool × State)
define_function visit base params s = do
  (b, s') ← visit_base visit defining base s
  s'' ← define_all visit params s'
  ok (true, s'')

-- `Typedef.define`
unfoldable pub define_typedef : Visit → ℕ → Option ℕ → State → Result (Bool × State)
define_typedef visit t base s = do
  (b, s') ← visit_base visit declaring base s
  (b', s'') ← visit declaring t s'
  visit_base visit defining base s''

-- `MemberType.define`, for a type that is only declared or not.
unfoldable pub define_member :
    Visit → ℕ → Bool → List ℕ → Option Error → State → Result (Bool × State)
define_member visit t true members failure s = ok (false, s)
define_member visit t false members failure s = do
  (b, s') ← visit declaring t s
  s'' ← define_all visit members s'
  write_fields t failure s''

-- `EnumType.define`
unfoldable pub define_enum : Visit → ℕ → Option ℕ → State → Result (Bool × State)
define_enum visit t base s = do
  (b, s') ← visit_base visit defining base s
  ok (true, write (enum_class t) s')

unfoldable pub mark_declared : ℕ → State → State
mark_declared t s = record s { declared = t ∷ s.declared }

unfoldable pub mark_defined : ℕ → Bool → State → State
mark_defined t b s = if b then record s { defined = t ∷ s.defined } else s

module _ (types : ℕ → TypeObject) (deep : Bool) where
  -- The type that a pointer is to, in the mode that looks through pointers.
  -- `t not in r.types` holds for every type object, as the keys of `r.types` are names.
  unfoldable pub want : Option ℕ → State → State
  want none s = s
  want (some base) s =
      if deep && not (types base).is_declaration then record s { wanted = base ∷ s.wanted } else s

  -- `PointerType.define`, of a pointer that renders as c_void_p or not.
  unfoldable pub define_pointer : Visit → Bool → Option ℕ → State → Result (Bool × State)
  define_pointer visit true base s = ok (true, s)
  define_pointer visit false base s = do
    (b, s') ← visit_base visit declaring base s
    ok (true, want base s')

  -- `define`, by the class of the type: `Type.define` returns True, and arrays and modifiers define
  -- their base type.
  unfoldable pub define : Visit → ℕ → Class → State → Result (Bool × State)
  define visit t plain s = ok (true, s)
  define visit t (function base params) s = define_function visit base params s
  define visit t (pointer is_voidp base) s = define_pointer visit is_voidp base s
  define visit t (typedef_of same base) s = define_typedef visit t base s
  define visit t (array_of base) s = visit_base visit defining base s
  define visit t (modifier base) s = visit_base visit defining base s
  define visit t (member_type only members failure) s = define_member visit t only members failure s
  define visit t (enumeration base) s = define_enum visit t base s

  -- `declareType`
  unfoldable pub declare_type : Visit → ℕ → State → Result (Bool × State)
  declare_type visit t s =
      let fresh = (do s' ← declare visit t (types t).class s; ok (true, mark_declared t s')) in
      if is_in t s.declared || (types t).is_foreign then ok (true, s) else fresh

  -- `defineType`
  unfoldable pub define_type : Visit → ℕ → State → Result (Bool × State)
  define_type visit t s =
      let fresh = (do (b, s') ← define visit t (types t).class s; ok (b, mark_defined t b s')) in
      if not (types t).has_die || (is_in t s.defined || (types t).is_foreign)
      then ok (true, s)
      else if (types t).is_void
      then ok (true, record s { errors = s.errors + 1 })
      else fresh

  unfoldable pub resolve : ℕ → Visit
  resolve zero mode t s = err out_of_fuel
  resolve (suc f) declaring t s = declare_type (resolve f) t s
  resolve (suc f) defining t s = define_type (resolve f) t s
