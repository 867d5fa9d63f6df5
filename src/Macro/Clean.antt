-- ===== src/Macro/Clean.antt =====
-- CTypeGen/expression.py: `clean`, over the tokens that python's tokenizer finds.
use ctypegen.Base.{
  ℕ, ◌-◌, List, [], ◌∷◌, ◌++◌, Bool, true, false, ◌&&◌, not, Option, none, some, Text, codes,
  decimal, text_mem, if◌then◌else◌, leb, ◌==◌, map, take, drop,
}

-- The token types that `clean` tells apart.
pub data Kind : Type 0 where
  number name string indent encoding other : Kind

-- A token with its columns.
pub record Token : Type 0 where
  pub kind : Kind
  pub text : Text
  pub start : ℕ
  pub end : ℕ

-- `c.upper()` for a letter of ASCII.
abbrev to_upper : ℕ → ℕ
to_upper c = if leb b'a' c && leb c b'z' then c - 32 else c

abbrev kill_suffixes : List Text
kill_suffixes = codes "UL" ∷ codes "U" ∷ codes "ULL" ∷ codes "L" ∷ codes "LL" ∷ []

-- `tok.string[-1].upper() == 'L'`
unfoldable pub ends_in_l : Text → Bool
ends_in_l [] = false
ends_in_l (c ∷ []) = to_upper c == b'L'
ends_in_l (c ∷ d ∷ s) = ends_in_l (d ∷ s)

-- `tok.string[:-1]`
unfoldable pub without_last : Text → Text
without_last [] = []
without_last (c ∷ []) = []
without_last (c ∷ d ∷ s) = c ∷ without_last (d ∷ s)

-- A literal of one character between quotes.
unfoldable pub quoted : Text → Option ℕ
quoted (a ∷ c ∷ b ∷ []) = if (a == b'\'') && (b == b'\'') then some c else none
quoted _ = none

-- A number that starts with 0 and has no X behind it.
unfoldable pub is_old_octal : Text → Bool
is_old_octal (a ∷ b ∷ s) = (a == b'0') && not (to_upper b == b'X')
is_old_octal _ = false

-- A precision suffix behind a number.
unfoldable pub is_suffix : Option Kind → Text → Bool
is_suffix (some number) text = text_mem (map to_upper text) kill_suffixes
is_suffix _ text = false

-- What a token writes, from the kind of the token before it.
unfoldable pub rewrite : Option Kind → Kind → Text → Text
rewrite prev number text =
    if ends_in_l text
    then without_last text
    else if is_old_octal text
    then codes "0o" ++ drop 1 text
    else text
rewrite prev string text = elim (quoted text) [ some c ↦ decimal c | none ↦ text ]
rewrite prev name text = if is_suffix prev text then [] else text
rewrite prev _ text = text

-- The names that a token adds to `name_list`.
unfoldable pub names_of : Option Kind → Kind → Text → List Text
names_of prev name text = if is_suffix prev text then [] else text ∷ []
names_of prev _ text = []

-- `input_[ prev_tok.end[ 1 ] : tok.start[ 1 ] ]`
unfoldable pub between : Text → Option ℕ → ℕ → Text
between input none start = []
between input (some end) start = take (start - end) (drop end input)

abbrev pub is_skipped : Kind → Bool
is_skipped indent = true
is_skipped encoding = true
is_skipped _ = false

abbrev kind_of : Option Token → Option Kind
kind_of none = none
kind_of (some t) = some t.kind

abbrev end_of : Option Token → Option ℕ
end_of none = none
end_of (some t) = some t.end

-- The loop: the output, and the names.
unfoldable pub clean_from : Text → Option Token → List Token → Text × List Text
clean_from input prev [] = ([], [])
clean_from input prev (t ∷ ts) =
    let (out, names) = clean_from input (if is_skipped t.kind then prev else some t) ts in
    if is_skipped t.kind then (out, names) else (
      between input (end_of prev) t.start ++ (rewrite (kind_of prev) t.kind t.text ++ out),
      names_of (kind_of prev) t.kind t.text ++ names,
    )

-- What `ast.parse` makes of the output: one expression, which may be a set, or anything else.
pub data Parsed : Type 0 where
  syntax_error not_expression set_display expression : Parsed

unfoldable pub accept : Parsed → Text × List Text → Option (Text × List Text)
accept expression cleaned = some cleaned
accept _ cleaned = none

-- What is left to do with the tokens, which a TokenError leaves out.
unfoldable pub clean_tokens :
    (Text → Parsed) → Text → Option (List Token) → Option (Text × List Text)
clean_tokens parse input none = none
clean_tokens parse input (some ts) =
    let cleaned = clean_from input none ts in accept (parse cleaned.0) cleaned

-- `clean`
unfoldable pub clean :
    (Text → Option (List Token)) → (Text → Parsed) → Text → Option (Text × List Text)
clean tokenize parse input = clean_tokens parse input (tokenize input)
