-- ===== src/Examine/Entries.antt =====
-- The dictionaries of functions and variables: a name that has an entry keeps it.
use ctypegen.Base.{
  ℕ, List, Bool, true, false, Option, none, some, ◌≡◌, refl, sym, ◌∙◌, subst, Bool-cases, inl, inr,
}
use ctypegen.Dwarf.{Dwarf}
use ctypegen.Examine.Keys.{
  Name, name_eq, name_eq_sound, name_eq_refl, find_name, put_name, find_name-put_name,
}
use ctypegen.Examine.Visit.{is_open}

-- The name has an entry.
abbrev pub IsFound : Name → List (Name × Option ℕ) → Type 0
IsFound n found = (h : ℕ) × (find_name n found ≡ some (some h))

-- No name loses its entry, or gets another one.
abbrev pub Stays : List (Name × Option ℕ) → List (Name × Option ℕ) → Type 0
Stays found found' =
    (n : Name) (h : ℕ) → find_name n found ≡ some (some h) → find_name n found' ≡ some (some h)

pub is_open-some : (h : ℕ) (o : Option (Option ℕ)) → is_open o ≡ true → o ≡ some (some h) → ⊥
unfolding is_open
is_open-some h none k e = cc
is_open-some h (some none) k e = cc
is_open-some h (some (some g)) k e = cc

pub is_open-found : (o : Option (Option ℕ)) → is_open o ≡ false → (h : ℕ) × (o ≡ some (some h))
unfolding is_open
is_open-found none k = cc
is_open-found (some none) k = cc
is_open-found (some (some g)) k = (g, refl)

pub put-Stays :
    (n : Name) (h : ℕ) (found : List (Name × Option ℕ))
    → is_open (find_name n found) ≡ true
    → Stays found (put_name n (some h) found)
put-Stays n h found open_name m g e = elim (Bool-cases (name_eq n m)) [
  | inr k ↦ find_name-put_name m n (some h) found ∙ (rw k) ∙ e
  | inl k ↦
      let same : find_name n found ≡ some (some g) =
        subst (λ l. find_name l found ≡ some (some g)) (sym (name_eq_sound n m k)) e in
      absurd (is_open-some g (find_name n found) open_name same)
]

pub put-IsFound :
    (n : Name) (h : ℕ) (found : List (Name × Option ℕ)) → IsFound n (put_name n (some h) found)
put-IsFound n h found = (h, find_name-put_name n n (some h) found ∙ (rw (name_eq_refl n)))

module _ (d : Dwarf) where
  -- Each entry of the dictionary has its name, and fits.
  abbrev pub AllFit : (ℕ → Bool) → List (Name × Option ℕ) → Type 0
  AllFit fits found =
      (n : Name) (h : ℕ)
      → find_name n found ≡ some (some h)
      → ((d h).fullname ≡ n) × (fits h ≡ true)

  pub put-AllFit :
      (fits : ℕ → Bool) (h : ℕ) (found : List (Name × Option ℕ))
      → fits h ≡ true
      → AllFit fits found
      → AllFit fits (put_name (d h).fullname (some h) found)
  put-AllFit fits h found k all n g e =
      let e' = sym (find_name-put_name n (d h).fullname (some h) found) ∙ e in
      elim (Bool-cases (name_eq (d h).fullname n)) [
        | inr b ↦ all n g (rw b at e')
        | inl b ↦
            let same : ◌≡◌ {A = Option (Option ℕ)} (some (some h)) (some (some g)) = rw b at e' in
            let name : (d h).fullname ≡ n = name_eq_sound (d h).fullname n b in
            subst (λ x. ((d x).fullname ≡ n) × (fits x ≡ true)) (cc) (name, k)
      ]
