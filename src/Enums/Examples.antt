-- ===== src/Enums/Examples.antt =====
-- An enumeration of two values, and another child.
use ctypegen.Base.{Bool, [], ◌∷◌, true, some, none, Text, codes, text_eq, ◌≡◌, refl}
use ctypegen.Base.Int.{pos}
use ctypegen.Names.{as_python_id, escape, escape_char, replacement, avoid_keyword, die_comment}
use ctypegen.Enums.{
  enumerator, other_child, EnumType, Line, comment, assignment, define_enum_text, add_children,
  add_enumerator, end_lines, int_type_text,
}

abbrev colours : EnumType
colours = record {
  name = codes "enum_a::b";
  int_type = none;
  is_nameless = true;
  children =
      enumerator (some (codes "red")) (pos 0)
      ∷ other_child
      ∷ enumerator (some (codes "in")) (pos 1)
      ∷ [];
}

abbrev is_in_keyword : Text → Bool
is_in_keyword t = text_eq t (codes "in")

abbrev note : Line
note = comment (codes "# DIE enum_a::b")

colours_run :
    (define_enum_text is_in_keyword colours).0.lines
    ≡ note
      ∷ assignment (codes "red") (codes "c_uint") (pos 0)
      ∷ note
      ∷ note
      ∷ assignment (codes "in_") (codes "c_uint") (pos 1)
      ∷ []
unfolding define_enum_text add_children add_enumerator end_lines die_comment int_type_text
    as_python_id escape escape_char replacement avoid_keyword text_eq
colours_run = refl
