-- ===== src/Libc/Filters.antt =====
-- What the filters for the C library let through.
use ctypegen.Base.{
  ℕ, List, [], ◌∷◌, ◌++◌, true, ◌&&◌, Option, none, some, Text, text_mem, text_eq_refl, ◌≡◌, ◌≢◌,
  refl, arith, Option-cases, inl, inr, ◌∙◌, if◌then◌else◌,
}
use ctypegen.Examine.Keys.{Name}
use ctypegen.Libc.{Platform, extern_function, have_dyn, functions_filter}
use ctypegen.Write.Library.{
  Function, Object, names_at, dynamic_names, distinct_names, linker_names, linker_name,
}
use ctypegen.Write.Sorted.{text_mem-sorted, text_mem-distinct_names}

names_at-filled :
    (object : Object) (address : ℕ) (names : List Text)
    → object.dynaddrs address ≢ some []
    → object.dynaddrs address ≡ some names
    → (n : Text) × (ns : List Text) × (names_at object (some address) ≡ n ∷ ns)
unfolding names_at
names_at-filled object address [] full e = absurd (full e)
names_at-filled object address (n ∷ ns) full e = (n, ns, rw e refl)

names_at-some :
    (object : Object) (low_pc : Option ℕ)
    → ((address : ℕ) → object.dynaddrs address ≢ some [])
    → extern_function object low_pc ≡ true
    → (n : Text) × (ns : List Text) × (names_at object low_pc ≡ n ∷ ns)
unfolding extern_function names_at
names_at-some object none full h = cc
names_at-some object (some address) full h = elim (Option-cases (object.dynaddrs address)) [
  | inl e ↦ (let k = rw e at h in cc)
  | inr (names, e) ↦ names_at-filled object address names (full address) e
]

first_member : (n : Text) (ns ms : List Text) → text_mem n ((n ∷ ns) ++ ms) ≡ true
unfolding text_mem
first_member n ns ms = rw (text_eq_refl n) refl

-- A function that the filter for functions keeps has a name in the library: if no address has an empty list
-- of names, the names that it gets a prototype for, keywords aside, are not none.
pub functions_filter-linker_names :
    (p : Platform) (name : Name) (d : Function)
    → ((address : ℕ) → d.object.dynaddrs address ≢ some [])
    → functions_filter p name d ≡ true
    → (n : Text) × (text_mem n (linker_names d) ≡ true)
unfolding functions_filter have_dyn dynamic_names
functions_filter-linker_names p name d full h =
    let (n, ns, e) = names_at-some d.object d.low_pc full (ground arith) in
    let rest = if d.external && d.object.symbol (linker_name d) then linker_name d ∷ [] else [] in
    (
      n,
      text_mem-sorted n (distinct_names (dynamic_names d))
          ∙ (text_mem-distinct_names n (dynamic_names d) ∙ rw e (first_member n ns rest)),
    )
