-- ===== src/Macro/Callback.antt =====
-- CTypeGen/__init__.py: `MacroCallback`, which hears of each file and each definition of a unit.
use ctypegen.Base.{
  ℕ, suc, ◌+◌, ◌-◌, List, [], ◌∷◌, ◌++◌, Bool, ◌||◌, Option, none, some, Text, codes, text_eq,
  text_mem, if◌then◌else◌, ltb, ◌==◌, take, drop, all,
}
use mathlib.Core.Option.{map}
use ctypegen.Dwarf.{Error, attribute_error, other_exception}

-- A generated macro: its name, its arguments, its value, and the file and line it is from.
pub record Macro : Type 0 where
  pub name : Text
  pub args : Option Text
  pub value : Text
  pub file : Text
  pub line : ℕ

-- The callback object with `resolver.defined`. `filescope` has the innermost file first.
pub record Callback : Type 0 where
  pub filescope : List Text
  pub defining : ℕ
  pub defined : List Text
  pub output : List Macro

-- What a call returns, the new state, or the exception that it raises: `other_exception` is an IndexError.
pub data Step : Type 0 where
  done : Callback → Step
  raised : Error → Step

abbrev shift : Option ℕ → Option ℕ
shift none = none
shift (some i) = some (suc i)

-- `data.find( c )`
unfoldable pub find : ℕ → Text → Option ℕ
find c [] = none
find c (d ∷ s) = if d == c then some 0 else shift (find c s)

-- The name, the text of the arguments and the value of a definition.
pub record Split : Type 0 where
  pub name : Text
  pub args : Option Text
  pub value : Text

unfoldable pub all_but_last : Text → Text
all_but_last [] = []
all_but_last (c ∷ []) = []
all_but_last (c ∷ d ∷ s) = c ∷ all_but_last (d ∷ s)

-- A macro with arguments, from the place of its opening parenthesis; an absent closing one is at -1.
unfoldable pub split_args : Text → ℕ → Option ℕ → Split
split_args text opening (some n) = record {
  name = take opening text;
  args = some (take (n + 2) (drop opening text));
  value = drop (opening + n + 2) text;
}
split_args text opening none = record { name = take opening text; args = some []; value = text }

-- A macro with no arguments; an absent space is at -1.
unfoldable pub split_plain : Text → Option ℕ → Split
split_plain text (some space) = record {
  name = take space text;
  args = none;
  value = drop (space + 1) text;
}
split_plain text none = record { name = all_but_last text; args = none; value = text }

unfoldable pub split : Text → Option ℕ → Option ℕ → Split
split text (some space) (some opening) =
    if ltb opening space
    then split_args text opening (find b')' (drop (opening + 1) text))
    else split_plain text (some space)
split text space opening = split_plain text space

abbrev pub split_definition : Text → Split
split_definition text = split text (find b' ' text) (find b'(' text)

-- What `ast.parse` makes of the text of the arguments: a name, a constant, with its value if that is a text, a
-- node with `elts`, or another one; `refused` is a SyntaxError.
pub data Element : Type 0 where
  name_node : Text → Element
  constant_node : Option Text → Element
  another_element : Element

pub data ArgsNode : Type 0 where
  refused another_node : ArgsNode
  one_name : Text → ArgsNode
  one_constant : Option Text → ArgsNode
  node_of : List Element → ArgsNode

-- The arguments of a macro. A text with no statement in it raises an IndexError, and a node that has no names an
-- AttributeError.
pub data Arguments : Type 0 where
  names : List Text → Arguments
  syntax_error no_statement no_names : Arguments

-- What the callback uses of the rest of the program and of python: which files are of interest,
-- what `ast.parse` returns, `clean`, and the names that modules imported before have.
pub record Tools : Type 0 where
  pub interested : Text → Bool
  pub parse_args : Text → ArgsNode
  pub clean : Text → Option (Text × List Text)
  pub existing : Text → Bool

unfoldable pub constant_names : Option Text → List Text
constant_names none = []
constant_names (some value) = value ∷ []

-- `elt.value if isinstance( elt, ast.Constant ) else elt.id`, for each of `elts`.
unfoldable pub element_names : List Element → Option (List Text)
element_names [] = some []
element_names (name_node n ∷ es) = map (λ ns. n ∷ ns) (element_names es)
element_names (constant_node value ∷ es) = map (λ ns. constant_names value ++ ns) (element_names es)
element_names (another_element ∷ es) = none

unfoldable pub from_elements : Option (List Text) → Arguments
from_elements none = no_names
from_elements (some ns) = names ns

-- The argument names, from what is parsed.
unfoldable pub from_parsed : ArgsNode → Arguments
from_parsed refused = syntax_error
from_parsed another_node = no_names
from_parsed (one_name n) = names (n ∷ [])
from_parsed (one_constant value) = names (constant_names value)
from_parsed (node_of es) = from_elements (element_names es)

module _ (tools : Tools) where
  open tools use {interested, parse_args, clean, existing}

  -- `ast.parse( argStr )` and the names in it: with no closing parenthesis the text is empty, and has
  -- no first statement.
  unfoldable pub args_of : Option Text → Arguments
  args_of none = names []
  args_of (some []) = no_statement
  args_of (some (c ∷ s)) = from_parsed (parse_args (c ∷ s))

  -- The value to write, or none where the macro is left out.
  unfoldable pub usable : Text → List Text → List Text → Option (Text × List Text) → Option Text
  usable name args defined none = none
  usable name args defined (some (value, used)) =
      if text_eq name value
      then none
      else if all (λ n. text_mem n defined || text_mem n args) used
      then some value
      else none

  unfoldable pub value_of : Text → List Text → List Text → Text → Option Text
  value_of name args defined [] = some (codes "None")
  value_of name args defined (c ∷ s) = usable name args defined (clean (c ∷ s))

  -- The macro is written, with the innermost file.
  unfoldable pub emit : Split → ℕ → Text → List Text → Callback → Step
  emit m line value [] s = raised other_exception
  emit m line value (file ∷ files) s = done (record s {
    defined = m.name ∷ s.defined;
    output =
        s.output
        ++ record { name = m.name; args = m.args; value = value; file = file; line = line } ∷ [];
  })

  unfoldable pub add : Split → ℕ → Option Text → Callback → Step
  add m line none s = done s
  add m line (some value) s = emit m line value s.filescope s

  -- The tests behind the arguments.
  unfoldable pub add_new : Split → ℕ → Arguments → Callback → Step
  add_new m line no_statement s = raised other_exception
  add_new m line no_names s = raised attribute_error
  add_new m line syntax_error s = done s
  add_new m line (names args) s =
      if text_mem m.name s.defined || existing m.name
      then done s
      else add m line (value_of m.name args s.defined m.value) s

  -- `define`
  unfoldable pub define : ℕ → Text → Callback → Step
  define line text s =
      let m = split_definition text in
      if s.defining == 0 then done s else add_new m line (args_of m.args) s

  -- `startFile`
  unfoldable pub start_file : Text → Callback → Step
  start_file file s = done (record s {
    filescope = file ∷ s.filescope;
    defining = if interested file then s.defining + 1 else s.defining;
  })

  -- The rest of `endFile`, from the scope.
  unfoldable pub leave : List Text → Callback → Step
  leave [] s = raised other_exception
  leave (file ∷ files) s = done (record s {
    filescope = files;
    defining = if interested file then s.defining - 1 else s.defining;
  })

  -- `endFile`
  unfoldable pub end_file : Callback → Step
  end_file s = leave s.filescope s

-- What the reader of the debug information reports.
pub data Event : Type 0 where
  defined_macro : ℕ → Text → Event
  undefined_macro : Event
  file_started : Text → Event
  file_ended : Event

unfoldable pub hear : Tools → Event → Callback → Step
hear tools (defined_macro line text) s = define tools line text s
hear tools undefined_macro s = done s
hear tools (file_started file) s = start_file tools file s
hear tools file_ended s = end_file tools s

unfoldable pub and_then : Step → (Callback → Step) → Step
and_then (done s) f = f s
and_then (raised e) f = raised e

-- `unit.macros( macros )`
unfoldable pub listen : Tools → List Event → Callback → Step
listen tools [] s = done s
listen tools (e ∷ es) s = and_then (hear tools e s) (λ s'. listen tools es s')

abbrev pub fresh : List Text → Callback
fresh defined = record { filescope = []; defining = 0; defined = defined; output = [] }
