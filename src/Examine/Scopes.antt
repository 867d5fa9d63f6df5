-- ===== src/Examine/Scopes.antt =====
-- Names that are split at "::" and joined again.
use ctypegen.Base.{
  ℕ, List, [], ◌∷◌, ◌++◌, map, Bool, true, false, ◌&&◌, Option, Text, codes, text_eq, text_eq_sound,
  text_eq_refl, text_mem, if◌then◌else◌, ◌==◌, ◌≡◌, refl, sym, ap, ◌∙◌, subst, arith, Bool-cases,
  ==_iff, inl, inr,
}
use ctypegen.Dwarf.{Dwarf}
use ctypegen.Names.{join_scopes}
use ctypegen.Examine.Keys.{Name, name_eq, name_mem, name_eq_sound, name_eq_refl}
use ctypegen.Examine.Visit.{wanted, refused}
use ctypegen.Examine.Requests.{filters_of}
use ctypegen.Examine.Asked.{
  onto_first, split_name, plain, asked_name, NamesArg, TypesArg, Selection, names_request,
  types_request, requests_of,
}

-- No colon in a scope.
abbrev pub IsScope : Text → Type 0
IsScope [] = Unit
IsScope (c ∷ s) = ((c == b':') ≡ false) × IsScope s

abbrev pub AllScopes : Name → Type 0
AllScopes [] = Unit
AllScopes (s ∷ n) = IsScope s × AllScopes n

-- There is always a first part.
abbrev IsSome : Name → Type 0
IsSome [] = ⊥
IsSome (s ∷ n) = Unit

IsSome-onto_first : (c : ℕ) (n : Name) → IsSome (onto_first c n)
unfolding onto_first
IsSome-onto_first c [] = tt
IsSome-onto_first c (s ∷ n) = tt

IsSome-split_name : (s : Text) → IsSome (split_name s)
unfolding split_name
IsSome-split_name [] = tt
IsSome-split_name (c ∷ []) = tt
IsSome-split_name (c ∷ d ∷ s) = elim (Bool-cases ((c == b':') && (d == b':'))) [
  | inl e ↦ rw e tt
  | inr e ↦ rw e (IsSome-onto_first c (split_name (d ∷ s)))
]

join_scopes-onto_first :
    (c : ℕ) (n : Name) → IsSome n → join_scopes (onto_first c n) ≡ c ∷ join_scopes n
unfolding join_scopes onto_first
join_scopes-onto_first c [] h = absurd h
join_scopes-onto_first c (s ∷ []) h = refl
join_scopes-onto_first c (s ∷ t ∷ n) h = refl

join_scopes-empty : (n : Name) → IsSome n → join_scopes ([] ∷ n) ≡ codes "::" ++ join_scopes n
unfolding join_scopes
join_scopes-empty [] h = absurd h
join_scopes-empty (s ∷ n) h = refl

-- The parts of a text give it back.
pub join_scopes-split_name : (s : Text) → join_scopes (split_name s) ≡ s
unfolding split_name join_scopes
join_scopes-split_name [] = refl
join_scopes-split_name (c ∷ []) = refl
join_scopes-split_name (c ∷ d ∷ s) = elim (Bool-cases ((c == b':') && (d == b':'))) [
  | inl e ↦
      (let p : c ≡ b':' = (==_iff c b':').0 (ground arith) in
        let q : d ≡ b':' = (==_iff d b':').0 (ground arith) in
        let rest = join_scopes-split_name s in
        rw e (join_scopes-empty (split_name s) (IsSome-split_name s) ∙ cc))
  | inr e ↦ rw e (
      join_scopes-onto_first c (split_name (d ∷ s)) (IsSome-split_name (d ∷ s))
      ∙ ap (λ t. c ∷ t) (join_scopes-split_name (d ∷ s)))
]

-- A scope that is not followed by another.
split_name-IsScope : (s : Text) → IsScope s → split_name s ≡ s ∷ []
unfolding split_name onto_first
split_name-IsScope [] h = refl
split_name-IsScope (c ∷ []) h = refl
split_name-IsScope (c ∷ d ∷ s) h = rw (h.0, split_name-IsScope (d ∷ s) h.1) refl

-- The first scope of several.
split_name-append :
    (s t : Text) → IsScope s → split_name (s ++ (codes "::" ++ t)) ≡ s ∷ split_name t
unfolding split_name onto_first
split_name-append [] t h = refl
split_name-append (c ∷ []) t h = rw (h.0) refl
split_name-append (c ∷ d ∷ s) t h = rw (h.0, split_name-append (d ∷ s) t h.1) refl

-- Scopes and a name without a colon in them, joined with "::" and split again, are what they were.
pub split_name-join_scopes :
    (s : Text) (n : Name) → AllScopes (s ∷ n) → split_name (join_scopes (s ∷ n)) ≡ s ∷ n
unfolding join_scopes
split_name-join_scopes s [] h = split_name-IsScope s h.0
split_name-join_scopes s (t ∷ n) h =
    split_name-append s (join_scopes (t ∷ n)) h.0 ∙ ap (λ m. s ∷ m) (split_name-join_scopes t n h.1)

same_Bool : (a b : Bool) → (a ≡ true → b ≡ true) → (b ≡ true → a ≡ true) → a ≡ b
same_Bool true b f g = sym (f refl)
same_Bool false true f g = g refl
same_Bool false false f g = refl

-- A name is the one that is split off exactly if it is the text when joined.
name_eq-split_name :
    (s : Text) (n : Name) (asked : Text)
    → AllScopes (s ∷ n)
    → name_eq (split_name asked) (s ∷ n) ≡ text_eq (join_scopes (s ∷ n)) asked
name_eq-split_name s n asked h =
    same_Bool _ _
      (λ e.
        subst (λ t. text_eq t asked ≡ true)
          (sym (join_scopes-split_name asked)
            ∙ ap join_scopes (name_eq_sound (split_name asked) (s ∷ n) e))
          (text_eq_refl asked))
      (λ e.
        let p = text_eq_sound (join_scopes (s ∷ n)) asked e in
        subst (λ m. name_eq (split_name asked) m ≡ true)
          (ap split_name (sym p) ∙ split_name-join_scopes s n h) (name_eq_refl (split_name asked)))

-- The names that are listed as texts.
name_mem-split_name :
    (s : Text) (n : Name) (asked : List Text)
    → AllScopes (s ∷ n)
    → name_mem (s ∷ n) (map split_name asked) ≡ text_mem (join_scopes (s ∷ n)) asked
unfolding name_mem text_mem
name_mem-split_name s n [] h = refl
name_mem-split_name s n (a ∷ asked) h =
    rw (name_eq-split_name s n a h, name_mem-split_name s n asked h) refl

asked_names : (ns : List Text) → map asked_name (map plain ns) ≡ map split_name ns
unfolding asked_name
asked_names [] = refl
asked_names (n ∷ ns) = ap (λ ms. split_name n ∷ ms) (asked_names ns)

-- Selection that list types, functions and variables by texts.
abbrev pub by_text : List Text → List Text → List Text → Option (ℕ → Bool) → Selection
by_text types functions globals namespace_filter = record {
  types = TypesArg.names types;
  functions = NamesArg.names (map plain functions);
  globals = NamesArg.names (map plain globals);
  namespace_filter = namespace_filter;
}

-- If types, functions and variables are listed as texts, an entry whose scopes have no colon passes each of the
-- filters exactly if its scopes and its name, joined with "::", are in the list.
pub filters_of-requests_of :
    (d : Dwarf) (h : ℕ) (s : Text) (n : Name) (types functions globals : List Text)
    (namespace_filter : Option (ℕ → Bool))
    → (d h).fullname ≡ s ∷ n
    → AllScopes (s ∷ n)
    → let f = filters_of d (requests_of (by_text types functions globals namespace_filter)) in
      let asked = join_scopes (s ∷ n) in
      (f.types h ≡ (if text_mem asked types then wanted else refused))
      × ((f.functions h ≡ text_mem asked functions) × (f.globals h ≡ text_mem asked globals))
unfolding filters_of requests_of names_request types_request
filters_of-requests_of d h s n types functions globals namespace_filter e scopes =
    rw
      (
        asked_names functions,
        asked_names globals,
        e,
        name_mem-split_name s n types scopes,
        name_mem-split_name s n functions scopes,
        name_mem-split_name s n globals scopes,
      )
      (refl, (refl, refl))
