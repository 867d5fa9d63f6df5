-- ===== src/Enums.antt =====
-- CTypeGen/__init__.py, `EnumType.define`: the class of an enumeration, and its values.
pub mod Bound
mod Examples
use ctypegen.Base.{
  ℕ, List, [], ◌∷◌, ◌++◌, Bool, true, false, Option, none, some, Text, codes, text_eq, ◌+◌, ◌==◌,
  if◌then◌else◌,
}
use ctypegen.Base.Int.{ℤ}
use ctypegen.Names.{as_python_text, as_python_id, die_comment}

-- A child of an enumeration's entry: an enumerator, by its name and its value, or another.
pub data Child : Type 0 where
  enumerator : Option Text → ℤ → Child
  other_child : Child

-- An `EnumType`. `int_type` is the identifier of the type of its values, if the entry gives one.
pub record EnumType : Type 0 where
  pub name : Text
  pub int_type : Option Text
  pub is_nameless : Bool
  pub children : List Child

-- What is written behind the head of the class: a value is written twice, in decimal and in hexadecimal digits.
pub data Line : Type 0 where
  comment : Text → Line
  assignment : Text → Text → ℤ → Line
  pass : Line

-- The class, and its lines, which stand in it, or behind it for a nameless enumeration.
pub record EnumText : Type 0 where
  pub class_name : Text
  pub base : Text
  pub is_nameless : Bool
  pub lines : List Line

-- The variables of the loop: the lines, `childcount`, and the names that are added to `resolver.defined`.
pub record Progress : Type 0 where
  pub lines : List Line
  pub count : ℕ
  pub defined : List Text

-- `self.intType()`
unfoldable pub int_type_text : Option Text → Text
int_type_text none = codes "c_uint"
int_type_text (some t) = t

abbrev pub comment_lines : Option Text → List Line
comment_lines none = []
comment_lines (some t) = comment t ∷ []

-- A name in an f-string.
abbrev pub printed_name : Option Text → Text
printed_name none = codes "None"
printed_name (some name) = name

abbrev pub added : Option Text → List Text
added none = []
added (some name) = name ∷ []

module _ (iskeyword : Text → Bool) where
  abbrev pub enum_py_name : EnumType → Text
  enum_py_name e = as_python_text iskeyword e.name

  abbrev pub enum_comment : EnumType → Option Text
  enum_comment e = die_comment (enum_py_name e) e.name

  -- One round of the loop over the children.
  unfoldable pub add_enumerator : EnumType → Child → Progress → Progress
  add_enumerator e (enumerator name value) p =
      let id = as_python_id iskeyword name in
      record {
        lines =
            p.lines
            ++ (comment_lines (enum_comment e)
                ++ assignment (printed_name id) (int_type_text e.int_type) value ∷ []);
        count = p.count + 1;
        defined = if e.is_nameless then p.defined ++ added id else p.defined;
      }
  add_enumerator e other_child p = record p { lines = p.lines ++ comment_lines (enum_comment e) }

  -- The loop.
  unfoldable pub add_children : EnumType → List Child → Progress → Progress
  add_children e [] p = p
  add_children e (c ∷ cs) p = add_children e cs (add_enumerator e c p)

  abbrev pub before_children : Progress
  before_children = record { lines = []; count = 0; defined = [] }

  -- The lines behind the loop.
  unfoldable pub end_lines : Progress → List Line
  end_lines p = if p.count == 0 then p.lines ++ pass ∷ [] else p.lines

  -- `EnumType.define`, behind the definition of the base type: what is written, and the names that are added to
  -- `resolver.defined`.
  unfoldable pub define_enum_text : EnumType → EnumText × List Text
  define_enum_text e =
      let p = add_children e e.children before_children in
      (
        record {
          class_name = enum_py_name e;
          base = int_type_text e.int_type;
          is_nameless = e.is_nameless;
          lines = end_lines p;
        },
        p.defined,
      )
