-- ===== src/Macro/Copy.antt =====
-- What `clean` leaves as it is.
use ctypegen.Base.{
  all, ℕ, zero, suc, ◌+◌, ◌-◌, List, [], ◌∷◌, ◌++◌, Bool, true, false, ◌&&◌, not, Option, none,
  some, Text, ◌≡◌, refl, arith, take, drop, decimal, ◌≤◌, ap, sym, ◌∙◌,
}
use ctypegen.Macro.Clean.{
  Kind, number, name, string, indent, encoding, other, Token, ends_in_l, quoted, is_old_octal,
  is_suffix, rewrite, names_of, between, is_skipped, clean_from, clean, clean_tokens, accept,
  Parsed, expression,
}

-- A token that is no number of a C type or in octal, no character between quotes and no suffix.
abbrev pub is_plain : Option Kind → Kind → Text → Bool
is_plain prev number text = not (ends_in_l text) && not (is_old_octal text)
is_plain prev name text = not (is_suffix prev text)
is_plain prev string text = elim (quoted text) [ some c ↦ false | none ↦ true ]
is_plain prev indent text = false
is_plain prev encoding text = false
is_plain prev other text = true

-- The tokens that the tokenizer puts behind the last line.
abbrev pub markers : ℕ → List Token
markers zero = []
markers (suc n) = record { kind = other; text = []; start = 0; end = 0 } ∷ markers n

-- The tokens stand one behind the other in the input, behind a first one, and there is no text behind
-- the last, but the tokens of the line behind.
pub data Tiles (input : Text) : Token → List Token → Type 0 where
  end_of_line : (prev : Token) (n : ℕ) → drop prev.end input ≡ [] → Tiles input prev (markers n)
  token :
      (prev t : Token) (ts : List Token)
      → prev.end ≤ t.start
      → t.start ≤ t.end
      → t.text ≡ take (t.end - t.start) (drop t.start input)
      → is_plain (some prev.kind) t.kind t.text ≡ true
      → Tiles input t ts
      → Tiles input prev (t ∷ ts)

abbrev name_text : Kind → Text → List Text
name_text name text = text ∷ []
name_text _ text = []

-- The texts of the names among the tokens.
abbrev pub name_texts : List Token → List Text
name_texts [] = []
name_texts (t ∷ ts) = name_text t.kind t.text ++ name_texts ts

take_append_drop : (n : ℕ) (s : Text) → take n s ++ drop n s ≡ s
take_append_drop zero s = refl
take_append_drop (suc n) [] = refl
take_append_drop (suc n) (c ∷ s) = ap (λ r. c ∷ r) (take_append_drop n s)

drop-drop : (m k n : ℕ) (s : Text) → m + k ≡ n → drop k (drop m s) ≡ drop n s
drop-drop zero k n s h = let e : k ≡ n = omega arith in rw (e)
drop-drop (suc m) zero zero [] h = refl
drop-drop (suc m) (suc k) zero [] h = refl
drop-drop (suc m) zero (suc n) [] h = refl
drop-drop (suc m) (suc k) (suc n) [] h = refl
drop-drop (suc m) k zero (c ∷ s) h = let e : ⊥ = omega arith in elim e [ ]
drop-drop (suc m) k (suc n) (c ∷ s) h = drop-drop m k n s (omega arith)

slice : (s : Text) (m n : ℕ) → m ≤ n → take (n - m) (drop m s) ++ drop n s ≡ drop m s
slice s m n h =
    ap (λ r. take (n - m) (drop m s) ++ r) (sym (drop-drop m (n - m) n s (omega arith)))
    ∙ take_append_drop (n - m) (drop m s)

keeps_unquoted :
    (c : Option ℕ) (text : Text)
    → elim c [ some c ↦ false | none ↦ true ] ≡ true
    → elim c [ some c ↦ decimal c | none ↦ text ] ≡ text
keeps_unquoted none text h = refl
keeps_unquoted (some c) text h = ground arith

rewrite-plain :
    (prev : Option Kind) (kind : Kind) (text : Text)
    → is_plain prev kind text ≡ true
    → rewrite prev kind text ≡ text
unfolding rewrite
rewrite-plain prev number text h = ground arith
rewrite-plain prev name text h = ground arith
rewrite-plain prev string text h = keeps_unquoted (quoted text) text h
rewrite-plain prev indent text h = refl
rewrite-plain prev encoding text h = refl
rewrite-plain prev other text h = refl

names_of-plain :
    (prev : Option Kind) (kind : Kind) (text : Text)
    → is_plain prev kind text ≡ true
    → names_of prev kind text ≡ name_text kind text
unfolding names_of
names_of-plain prev number text h = refl
names_of-plain prev name text h = ground arith
names_of-plain prev string text h = refl
names_of-plain prev indent text h = refl
names_of-plain prev encoding text h = refl
names_of-plain prev other text h = refl

kept :
    (prev : Option Kind) (kind : Kind) (text : Text)
    → is_plain prev kind text ≡ true
    → is_skipped kind ≡ false
kept prev number text h = refl
kept prev name text h = refl
kept prev string text h = refl
kept prev indent text h = ground arith
kept prev encoding text h = ground arith
kept prev other text h = refl

-- A plain token is copied with the text before it.
clean_from-plain :
    (input : Text) (prev t : Token) (ts : List Token)
    → is_plain (some prev.kind) t.kind t.text ≡ true
    → let rest = clean_from input (some t) ts in
      clean_from input (some prev) (t ∷ ts) ≡ (
        take (t.start - prev.end) (drop prev.end input) ++ (t.text ++ rest.0),
        name_text t.kind t.text ++ rest.1,
      )
unfolding clean_from between
clean_from-plain input prev t ts h = rw (
  kept (some prev.kind) t.kind t.text h,
  rewrite-plain (some prev.kind) t.kind t.text h,
  names_of-plain (some prev.kind) t.kind t.text h,
)

take_zero : (n : ℕ) (s : Text) → take (0 - n) s ≡ []
take_zero n s = let e : 0 - n ≡ 0 = omega arith in rw (e)

clean_from-markers :
    (input : Text) (prev : Token) (n : ℕ)
    → clean_from input (some prev) (markers n) ≡ ([], name_texts (markers n))
unfolding clean_from
clean_from-markers input prev zero = refl
clean_from-markers input prev (suc n) =
    let marker : Token = record { kind = other; text = []; start = 0; end = 0 } in
    clean_from-plain input prev marker (markers n) refl
    ∙ rw (clean_from-markers input marker n, take_zero prev.end (drop prev.end input))

clean_from-Tiles :
    (input : Text) (prev : Token) (ts : List Token)
    → Tiles input prev ts
    → clean_from input (some prev) ts ≡ (drop prev.end input, name_texts ts)
unfolding clean_from
clean_from-Tiles input _ _ (end_of_line prev n nothing) =
    clean_from-markers input prev n ∙ rw (nothing)
clean_from-Tiles input _ _ (token prev t ts after forward text plain tiles) =
    clean_from-plain input prev t ts plain
    ∙ rw (
      clean_from-Tiles input t ts tiles,
      text,
      slice input t.start t.end forward,
      slice input prev.end t.start after,
    )

first_token :
    (input : Text) (t : Token) (ts : List Token)
    → is_plain none t.kind t.text ≡ true
    → let rest = clean_from input (some t) ts in
      clean_from input none (t ∷ ts) ≡ (t.text ++ rest.0, name_text t.kind t.text ++ rest.1)
unfolding clean_from between
first_token input t ts h = rw (
  kept none t.kind t.text h,
  rewrite-plain none t.kind t.text h,
  names_of-plain none t.kind t.text h,
)

-- Tokens for the encoding and for indentation at the front change nothing.
skip_front :
    (input : Text) (front ts : List Token)
    → all (λ t. is_skipped t.kind) front ≡ true
    → clean_from input none (front ++ ts) ≡ clean_from input none ts
unfolding clean_from
skip_front input [] ts h = refl
skip_front input (t ∷ front) ts h =
    let skipped : is_skipped t.kind ≡ true = ground arith in
    rw (skipped) (skip_front input front ts (ground arith))

-- A value whose tokens, behind those of the encoding and of indentation, stand one behind the other
-- and need no rewriting, and which is an expression but no set from the first of them on, is what
-- `clean` returns, from that token on, with all the names in it.
pub clean_lem :
    (tokenize : Text → Option (List Token)) (parse : Text → Parsed) (input : Text)
    (front : List Token) (t : Token) (ts : List Token)
    → tokenize input ≡ some (front ++ t ∷ ts)
    → all (λ u. is_skipped u.kind) front ≡ true
    → parse (drop t.start input) ≡ expression
    → t.start ≤ t.end
    → t.text ≡ take (t.end - t.start) (drop t.start input)
    → is_plain none t.kind t.text ≡ true
    → Tiles input t ts
    → clean tokenize parse input ≡ some (drop t.start input, name_texts (t ∷ ts))
unfolding clean clean_tokens accept
clean_lem tokenize parse input front t ts tokens skipped parsed forward text plain tiles =
    let copied : clean_from input none (front ++ t ∷ ts)
        ≡ (drop t.start input, name_texts (t ∷ ts)) =
      skip_front input front (t ∷ ts) skipped
      ∙ first_token input t ts plain
      ∙ rw (clean_from-Tiles input t ts tiles, text, slice input t.start t.end forward) in
    rw (tokens, clean_tokens, copied, accept, parsed)
