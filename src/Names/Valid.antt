-- ===== src/Names/Valid.antt =====
-- What `asPythonId` writes: no character that it replaces, no keyword, and names that need no
-- change as they are.
use ctypegen.Base.{
  ℕ, List, [], ◌∷◌, ◌++◌, Bool, true, false, not, some, Text, codes, is_some, all, ◌≡◌, refl, ◌↔◌,
  arith, inl, inr, Option-cases,
}
use ctypegen.Names.{repls, find_repl, replacement, escape_char, escape, avoid_keyword, as_python_id}

-- The character is none of the keys of `repls`.
abbrev pub is_plain : ℕ → Bool
is_plain c = not (is_some (replacement c))

abbrev pub IsPlain : Text → Type 0
IsPlain s = all is_plain s ≡ true

IsPlain-append : (s t : Text) → IsPlain s → IsPlain t → IsPlain (s ++ t)
IsPlain-append [] t hs ht = ht
IsPlain-append (c ∷ s) t hs ht = ground (arith, IsPlain-append s t)

-- What every entry of a dictionary satisfies holds of what is found.
find_repl-IsPlain :
    (m : List (ℕ × Text)) (c : ℕ) (t : Text)
    → all (λ kv. all is_plain kv.1) m ≡ true
    → find_repl c m ≡ some t
    → IsPlain t
unfolding find_repl
find_repl-IsPlain [] c t h e = cc
find_repl-IsPlain ((k, v) ∷ m) c t h e = ground (arith, find_repl-IsPlain m c t)

repls-IsPlain : all (λ kv. all is_plain kv.1) repls ≡ true
unfolding replacement
repls-IsPlain = refl

underscore-IsPlain : IsPlain (codes "_")
unfolding replacement
underscore-IsPlain = refl

replacement-IsPlain : (c : ℕ) (t : Text) → replacement c ≡ some t → IsPlain t
replacement-IsPlain c t e = find_repl-IsPlain repls c t repls-IsPlain (unfold replacement in e)

escape_char-IsPlain : (prev : Bool) (c : ℕ) → IsPlain (escape_char prev c (replacement c))
unfolding escape_char
escape_char-IsPlain prev c = elim (Option-cases (replacement c)) [
  | inl e ↦ ground (arith, e, underscore-IsPlain)
  | inr (t, e) ↦ rw e (replacement-IsPlain c t e)
]

escape-IsPlain : (prev : Bool) (s : Text) → IsPlain (escape prev s)
unfolding escape
escape-IsPlain prev [] = refl
escape-IsPlain prev (c ∷ s) =
    IsPlain-append (escape_char prev c (replacement c)) _ (escape_char-IsPlain prev c)
      (escape-IsPlain (is_some (replacement c)) s)

-- A name of plain characters is written as it is.
escape-eq_self : (s : Text) → IsPlain s → escape false s ≡ s
unfolding escape escape_char
escape-eq_self [] h = refl
escape-eq_self (c ∷ s) h = ground (arith, escape-eq_self s)

module _ (iskeyword : Text → Bool)
    (underscored : (s : Text) → iskeyword s ≡ true → iskeyword (s ++ codes "_") ≡ false) where
  avoid_keyword-IsPlain : (s : Text) → IsPlain s → IsPlain (avoid_keyword iskeyword s)
  unfolding avoid_keyword
  avoid_keyword-IsPlain s h = ground (arith, IsPlain-append s (codes "_") h underscore-IsPlain)

  avoid_keyword_lem : (s : Text) → iskeyword (avoid_keyword iskeyword s) ≡ false
  unfolding avoid_keyword
  avoid_keyword_lem s = ground (arith, underscored s)

  -- The identifier that `asPythonId` gives for a name has none of the characters that it replaces
  -- and is no keyword, if a keyword with an underscore behind it is no keyword.
  pub as_python_id_valid :
      (s t : Text) → as_python_id iskeyword (some s) ≡ some t → IsPlain t × (iskeyword t ≡ false)
  unfolding as_python_id
  as_python_id_valid s t e =
      let out = escape false s in
      let written : avoid_keyword iskeyword out ≡ t = cc in
      (
        rw written at (avoid_keyword-IsPlain out (escape-IsPlain false s)),
        rw written at (avoid_keyword_lem out),
      )

  -- Exactly the names with no character to replace that are no keywords stay as they are.
  pub as_python_id-eq_self_iff :
      (s : Text) → (as_python_id iskeyword (some s) ≡ some s) ↔ (IsPlain s × (iskeyword s ≡ false))
  unfolding as_python_id avoid_keyword
  as_python_id-eq_self_iff s =
      (as_python_id_valid s s, λ h. rw (escape-eq_self s h.0) (rw (h.1) refl))
