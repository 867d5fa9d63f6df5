-- ===== src/Macro/Examples.antt =====
-- A header with three definitions, and a value that is copied.
use ctypegen.Base.{
  List, [], ◌∷◌, false, some, Text, codes, text_eq, if◌then◌else◌, ◌≡◌, refl, arith, map, text_mem,
}
use ctypegen.Macro.Callback.{
  Step, done, raised, refused, one_name, Tools, Event, defined_macro, file_started, file_ended,
  hear, listen, fresh, and_then, define, start_file, end_file, leave, add_new, args_of, from_parsed,
  emit, add, usable, value_of, split, split_args, split_plain, find, all_but_last,
}
use ctypegen.Macro.Scope.{IsValid}
use ctypegen.Macro.Returns.{Returns, listen-IsValid}
use ctypegen.Macro.Clean.{
  number, name, other, encoding, Token, expression, clean, clean_tokens, clean_from, accept,
  rewrite, between, quoted, is_suffix, is_old_octal, ends_in_l, names_of, without_last,
}
use ctypegen.Macro.Copy.{end_of_line, markers, token, clean_lem}

abbrev some_tools : Tools
some_tools = record {
  interested = λ f. text_eq f (codes "a.h");
  parse_args = λ s. if text_eq s (codes "(x)") then one_name (codes "x") else refused;
  clean = λ v. some (v, if text_eq v (codes " x+1") then codes "x" ∷ [] else []);
  existing = λ n. false;
}

abbrev header : List Event
header =
    file_started (codes "a.h")
    ∷ defined_macro 1 (codes "N 4")
    ∷ defined_macro 2 (codes "N 5")
    ∷ defined_macro 3 (codes "INC(x) x+1")
    ∷ file_ended
    ∷ []

abbrev values : Step → List Text
values (done s) = map (λ m. m.value) s.output
values (raised e) = []

listen_run : values (listen some_tools header (fresh [])) ≡ codes "4" ∷ codes " x+1" ∷ []
unfolding listen hear and_then start_file end_file leave define add_new args_of from_parsed emit add
    usable value_of split split_args split_plain find all_but_last text_eq text_mem
listen_run = refl

listen-IsValid_example :
    Returns (IsValid some_tools.interested) (listen some_tools header (fresh []))
unfolding split split_args split_plain find all_but_last args_of from_parsed text_eq
listen-IsValid_example = listen-IsValid some_tools header [] refl

abbrev sign : Token
sign = record { kind = other; text = codes "+"; start = 2; end = 3 }

abbrev ten : Token
ten = record { kind = number; text = codes "10"; start = 4; end = 6 }

abbrev newline : Token
newline = record { kind = other; text = []; start = 6; end = 7 }

abbrev plus : List Token
plus = sign ∷ ten ∷ newline ∷ markers 1

abbrev front : Token
front = record { kind = encoding; text = codes "utf-8"; start = 0; end = 0 }

abbrev first : Token
first = record { kind = name; text = codes "x"; start = 0; end = 1 }

clean_run :
    clean (λ s. some (front ∷ first ∷ plus)) (λ s. expression) (codes "x + 10")
    ≡ some (codes "x + 10", codes "x" ∷ [])
unfolding clean clean_tokens clean_from accept rewrite between quoted is_suffix is_old_octal
    ends_in_l names_of without_last text_mem text_eq
clean_run = refl

clean_lem_example :
    clean (λ s. some (front ∷ first ∷ plus)) (λ s. expression) (codes "x + 10")
    ≡ some (codes "x + 10", codes "x" ∷ [])
unfolding is_suffix quoted is_old_octal ends_in_l text_mem text_eq
clean_lem_example =
    clean_lem (λ s. some (front ∷ first ∷ plus)) (λ s. expression) (codes "x + 10") (front ∷ [])
      first plus refl refl refl (omega arith) refl refl
      (token first sign (ten ∷ newline ∷ markers 1) (omega arith) (omega arith) refl refl (
        token sign ten (newline ∷ markers 1) (omega arith) (omega arith) refl refl (
          token ten newline (markers 1) (omega arith) (omega arith) refl refl
            (end_of_line newline 1 refl))))
