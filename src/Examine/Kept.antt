-- ===== src/Examine/Kept.antt =====
-- `dieToType` returns one object for each full name and tag, and never forgets one.
use ctypegen.Base.{
  ℕ, zero, suc, ◌<◌, ◌≤◌, List, [], true, ◌&&◌, Option, none, some, Text, if◌then◌else◌, ◌≡◌, refl,
  sym, ap, ◌∙◌, subst, arith, Bool-cases, Option-cases, inl, inr,
}
use ctypegen.Dwarf.{Tag, Dwarf, Error, Result, attribute_error}
use ctypegen.Dwarf.Ensures.{Ensures, returns, raises, Ensures-bind, Ensures-map}
use ctypegen.Examine.Keys.{
  Name, name_eq, name_eq_sound, name_eq_refl, tag_eq, tag_eq_refl, find_name, put_name, find_tag,
  put_tag, find_name-put_name, find_tag-put_tag, find_tag-tag_eq,
}
use ctypegen.Examine.Find.{
  Kind, typedef_kind, array_kind, type_from_tag, TypeEntry, local, external, TypeRef, kept, World,
  Tables, row_of, by_tag, find_type, with_name, register, definition, skip_next, skip_to_type,
  imported, call_base, construct, new_type, known_or_new, type_of_die,
}

by_tag-put_name :
    (n m : Name) (row : List (Tag × TypeEntry)) (types : List (Name × List (Tag × TypeEntry)))
    → by_tag n (put_name m row types) ≡ (if name_eq m n then row else by_tag n types)
unfolding by_tag
by_tag-put_name n m row types = elim (Bool-cases (name_eq m n)) [
  | inl h ↦ ap row_of (find_name-put_name n m row types) ∙ rw h
  | inr h ↦ ap row_of (find_name-put_name n m row types) ∙ rw h
]

find_type-register :
    (n m : Name) (t u : Tag) (e : TypeEntry) (s : Tables)
    → find_type n t (register m u e s)
      ≡ (if name_eq m n && tag_eq u t then some e else find_type n t s)
unfolding find_type register
find_type-register n m t u e s = elim (Bool-cases (name_eq m n)) [
  | inr h ↦ rw (by_tag-put_name n m (put_tag u e (by_tag m s.types)) s.types, h)
  | inl h ↦
      let same : m ≡ n = name_eq_sound m n h in
      rw (
        by_tag-put_name n m (put_tag u e (by_tag m s.types)) s.types,
        h,
        find_tag-put_tag t u e (by_tag m s.types),
        same,
      )
]

find_type-with_name :
    (n m : Name) (t : Tag) (s : Tables) → find_type n t (with_name m s) ≡ find_type n t s
unfolding find_type with_name by_tag
find_type-with_name n m t s = elim (Option-cases (find_name m s.types)) [
  | inr (row, h) ↦ rw h
  | inl h ↦ rw h (
      ap (find_tag t) (elim (Bool-cases (name_eq m n)) [
        | inl k ↦
            let absent : find_name n s.types ≡ none =
              subst (λ l. find_name l s.types ≡ none) (name_eq_sound m n k) h in
            by_tag-put_name n m [] s.types ∙ (rw k) ∙ sym (ap row_of absent)
        | inr k ↦ by_tag-put_name n m [] s.types ∙ rw k
      ]))
]

-- Each object that the tables hold stays.
abbrev pub Keeps : Tables → Tables → Type 0
Keeps s s' =
    (n : Name) (t : Tag) (e : TypeEntry) → find_type n t s ≡ some e → find_type n t s' ≡ some e

pub Keeps-same : (s : Tables) → Keeps s s
Keeps-same s n t e h = h

pub Keeps-trans : (s s' s'' : Tables) → Keeps s s' → Keeps s' s'' → Keeps s s''
Keeps-trans s s' s'' k l n t e h = l n t e (k n t e h)

Keeps-with_name : (m : Name) (s : Tables) → Keeps s (with_name m s)
Keeps-with_name m s n t e h = find_type-with_name n m t s ∙ h

find_type-same :
    (n : Name) (t u : Tag) (s : Tables) → tag_eq u t ≡ true → find_type n t s ≡ find_type n u s
unfolding find_type
find_type-same n t u s h = find_tag-tag_eq t u (by_tag n s.types) h

-- An object for a key that had none.
Keeps-register :
    (m : Name) (u : Tag) (e : TypeEntry) (s s' : Tables)
    → find_type m u s ≡ none
    → Keeps s s'
    → Keeps s (register m u e s')
Keeps-register m u e s s' new k n t x h = elim (Bool-cases (name_eq m n && tag_eq u t)) [
  | inr b ↦ find_type-register n m t u e s' ∙ (rw b) ∙ k n t x h
  | inl b ↦
      let same : m ≡ n = name_eq_sound m n (ground arith) in
      let absent : find_type n u s ≡ none = subst (λ l. find_type l u s ≡ none) same new in
      let one : find_type n t s ≡ find_type n u s = find_type-same n t u s (ground arith) in cc
]

register_found :
    (m : Name) (u : Tag) (e : TypeEntry) (s : Tables) → find_type m u (register m u e s) ≡ some e
register_found m u e s = find_type-register m m u u e s ∙ (rw (name_eq_refl m, tag_eq_refl u))

-- The types that `dieToType` goes on to, from an entry whose tag has no class and from a typedef, have a
-- smaller rank.
abbrev pub IsRanked : Dwarf → World → (ℕ → ℕ) → Type 0
IsRanked d w rank =
    ((h k : ℕ) → (d h).type ≡ some k → rank k < rank h)
    × ((h g k : ℕ) → w.find_definition h ≡ some g → (d g).type ≡ some k → rank k < rank h)

-- The only exception.
abbrev pub OnlyAttribute : Error → Type 0
OnlyAttribute e = e ≡ attribute_error

module _ (d : Dwarf) (w : World) (rank : ℕ → ℕ) (ranked : IsRanked d w rank) where
  definition-Keeps :
      (h : ℕ) (s : Tables)
      → Keeps s (definition d w h s).1
        × ((k : ℕ) → (d (definition d w h s).0).type ≡ some k → rank k < rank h)
  unfolding definition find_type
  definition-Keeps h s = elim (Bool-cases (d h).declaration) [
    | inr c ↦ rw c ((λ n t e x. x), (λ k x. ranked.0 h k x))
    | inl c ↦ elim (Option-cases (w.find_definition h)) [
      | inl f ↦ rw (c, f) ((λ n t e x. x), (λ k x. ranked.0 h k x))
      | inr (g, f) ↦ rw (c, f) ((λ n t e x. x), (λ k x. ranked.1 h g k f x))
    ]
  ]

  skip_next-Ensures :
      (next : ℕ → Result (ℕ × Kind)) (h : ℕ) (kind : Option Kind) (type : Option ℕ)
      → (d h).type ≡ type
      → ((k : ℕ) → rank k < rank h → Ensures OnlyAttribute (λ r. rank r.0 ≤ rank k) (next k))
      → Ensures OnlyAttribute (λ r. rank r.0 ≤ rank h) (skip_next d w next h kind type)
  unfolding skip_next
  skip_next-Ensures next h (some kind) type e call = returns (omega arith)
  skip_next-Ensures next h none none e call = raises refl
  skip_next-Ensures next h none (some k) e call =
      let below : rank k < rank h = ranked.0 h k e in Ensures-map (call k below) λ r le. omega arith

  -- The entry of which the class is taken.
  skip_to_type-Ensures :
      (f h : ℕ) → rank h < f → Ensures OnlyAttribute (λ r. rank r.0 ≤ rank h) (skip_to_type d w f h)
  unfolding skip_to_type
  skip_to_type-Ensures zero h b = absurd (omega arith)
  skip_to_type-Ensures (suc f) h b =
      skip_next-Ensures (skip_to_type d w f) h (type_from_tag (d h).tag) (d h).type refl
        λ k below. skip_to_type-Ensures f k (omega arith)

  -- What `dieToType` leaves for an entry.
  abbrev pub IsKept : ℕ → Tables → TypeRef × Tables → Type 0
  IsKept h s (t, s') =
      (t ≡ kept (d h).fullname (d h).tag)
      × (Keeps s s' × ((e : TypeEntry) × (find_type (d h).fullname (d h).tag s' ≡ some e)))

  module _ (f : ℕ) (call : ℕ → Tables → Result (TypeRef × Tables)) (n : ℕ)
      (calls : (k : ℕ) (s : Tables)
        → rank k < n
        → Ensures OnlyAttribute (IsKept k s) (call k s)) where
    call_base-Ensures :
        (base : Option ℕ) (s : Tables)
        → ((k : ℕ) → base ≡ some k → rank k < n)
        → Ensures OnlyAttribute (Keeps s) (call_base d w call base s)
    unfolding call_base
    call_base-Ensures none s below = returns (Keeps-same s)
    call_base-Ensures (some k) s below =
        Ensures-bind (calls k s (below k refl)) λ (t, s') q. returns (q.1.0)

    construct-Ensures :
        (h : ℕ) (kind : Kind) (s : Tables)
        → rank h ≤ n
        → Ensures OnlyAttribute (Keeps s) (construct d w call h kind s)
    unfolding construct
    construct-Ensures h typedef_kind s le =
        let (keeps, below) = definition-Keeps h s in
        let (k, s') = definition d w h s in
        Ensures-map
          (call_base-Ensures (d (definition d w h s).0).type (definition d w h s).1
            λ k e. let lt = below k e in omega arith)
          λ s'' q. Keeps-trans s (definition d w h s).1 s'' keeps q
    construct-Ensures h array_kind s le = returns ((definition-Keeps h s).0)
    construct-Ensures h _ s le = returns (Keeps-same s)

    new_type-Ensures :
        (h : ℕ) (module_name : Option Text) (s : Tables)
        → rank h ≤ n
        → rank h < f
        → find_type (d h).fullname (d h).tag s ≡ none
        → Ensures OnlyAttribute (IsKept h s) (new_type d w call f h module_name s)
    unfolding new_type
    new_type-Ensures h (some m) s le lt new = returns (
      refl,
      (
        Keeps-register (d h).fullname (d h).tag (external h m) s s new (Keeps-same s),
        (external h m, register_found (d h).fullname (d h).tag (external h m) s),
      ),
    )
    new_type-Ensures h none s le lt new =
        Ensures-bind (skip_to_type-Ensures f h lt) λ (k, kind) below.
          Ensures-bind (construct-Ensures k kind s (omega arith)) λ s' keeps. returns (
            refl,
            (
              Keeps-register (d h).fullname (d h).tag (local k kind) s s' new keeps,
              (local k kind, register_found (d h).fullname (d h).tag (local k kind) s'),
            ),
          )

    known_or_new-Ensures :
        (h : ℕ) (found : Option TypeEntry) (s : Tables)
        → rank h ≤ n
        → rank h < f
        → find_type (d h).fullname (d h).tag s ≡ found
        → Ensures OnlyAttribute (IsKept h s) (known_or_new d w call f h found s)
    unfolding known_or_new
    known_or_new-Ensures h (some e) s le lt found = returns (refl, (Keeps-same s, (e, found)))
    known_or_new-Ensures h none s le lt new =
        let fresh = find_type-with_name (d h).fullname (d h).fullname (d h).tag s ∙ new in
        Ensures-map
          (new_type-Ensures h (imported d w h (d h).name) (with_name (d h).fullname s) le lt fresh)
          λ r q. (
            q.0,
            (
              Keeps-trans s (with_name (d h).fullname s) r.1 (Keeps-with_name (d h).fullname s)
                  q.1.0,
              q.1.1,
            ),
          )

  -- With fuel for the chain of types `dieToType` returns, unless a type is missing where the class of an
  -- entry is looked for. It returns the object for the entry's full name and tag, which the tables hold
  -- then, and each object that they held before they hold still.
  pub type_of_die-IsKept :
      (f h : ℕ) (s : Tables)
      → suc (rank h) < f
      → Ensures OnlyAttribute (IsKept h s) (type_of_die d w f h s)
  unfolding type_of_die
  type_of_die-IsKept zero h s b = absurd (omega arith)
  type_of_die-IsKept (suc f) h s b =
      known_or_new-Ensures f (type_of_die d w f) (rank h)
        (λ k s' below. type_of_die-IsKept f k s' (omega arith)) h
        (find_type (d h).fullname (d h).tag s) s (omega arith) (omega arith) refl
