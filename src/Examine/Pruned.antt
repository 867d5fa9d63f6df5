-- ===== src/Examine/Pruned.antt =====
-- Namespaces that hold none of the listed names need no search.
use ctypegen.Base.{
  ℕ, List, [], ◌∷◌, ◌++◌, Bool, true, false, not, ◌&&◌, ◌||◌, is_some, ◌≡◌, refl, sym, ap, ◌∙◌,
  subst, arith, Bool-cases, inl, inr, append_assoc,
}
use ctypegen.Dwarf.{Dwarf, ok}
use ctypegen.Examine.Keys.{Name, name_eq, name_eq_sound, name_eq_refl, name_mem}
use ctypegen.Examine.Find.{World}
use ctypegen.Examine.Visit.{
  Tree, node, Forest, end, child, refused, Filters, Found, is_unit, is_namespace, is_enumeration,
  is_variable, is_subprogram, is_named_type, examine_variable, examine_function, take_type,
  examine_type, examine_definition, examine_die, enumerate_dies, enumerate_all,
}
use ctypegen.Examine.Requests.{
  Request, TypeRequest, callable, listed, Requests, scopes, scopes_of_all, names_of, type_names_of,
  is_callable, is_type_callable, all_namespaces, is_wildcard, filter_of, types_filter_of,
  filters_of,
}

-- The name stands in the scope, at any depth.
abbrev pub Extends : Name → Name → Type 0
Extends p n = (x : List ℕ) × (xs : Name) × (n ≡ p ++ x ∷ xs)

Extends-trans : (p q n : Name) → Extends p q → Extends q n → Extends p n
Extends-trans p q n (x, xs, e) (y, ys, k) =
    (x, xs ++ y ∷ ys, k ∙ ap (λ m. m ++ y ∷ ys) e ∙ append_assoc p (x ∷ xs) (y ∷ ys))

name_mem-append :
    (n : Name) (xs ys : List Name) → name_mem n (xs ++ ys) ≡ (name_mem n xs || name_mem n ys)
unfolding name_mem
name_mem-append n [] ys = refl
name_mem-append n (x ∷ xs) ys = ground (arith, name_mem-append n xs ys)

-- A scope of a name is among its scopes.
scopes-mem :
    (before : Name) (a : List ℕ) (p : Name) (x : List ℕ) (xs : Name)
    → name_mem (before ++ a ∷ p) (scopes before (a ∷ (p ++ x ∷ xs))) ≡ true
unfolding scopes name_mem
scopes-mem before a [] x xs = rw (name_eq_refl (before ++ a ∷ []))
scopes-mem before a (b ∷ p) x xs =
    let later = scopes-mem (before ++ a ∷ []) b p x xs in
    let same : (before ++ a ∷ []) ++ b ∷ p ≡ before ++ a ∷ b ∷ p =
      append_assoc before (a ∷ []) (b ∷ p) in
    let found : name_mem (before ++ a ∷ b ∷ p) (scopes (before ++ a ∷ []) (b ∷ (p ++ x ∷ xs)))
        ≡ true =
      subst (λ m. name_mem m (scopes (before ++ a ∷ []) (b ∷ (p ++ x ∷ xs))) ≡ true) same later in
    ground arith

-- A name in a scope that holds none of the listed names is not listed.
not_listed :
    (a : List ℕ) (p n : Name) (ns : List Name)
    → Extends (a ∷ p) n
    → name_mem (a ∷ p) (scopes_of_all ns) ≡ false
    → name_mem n ns ≡ false
unfolding name_mem scopes_of_all
not_listed a p n [] e h = refl
not_listed a p n (m ∷ ns) e h =
    let both : (name_mem (a ∷ p) (scopes [] m) || name_mem (a ∷ p) (scopes_of_all ns)) ≡ false =
      sym (name_mem-append (a ∷ p) (scopes [] m) (scopes_of_all ns)) ∙ h in
    elim (Bool-cases (name_eq m n)) [
      | inl same ↦
          let (x, xs, k) = e in
          let name : m ≡ a ∷ (p ++ x ∷ xs) = name_eq_sound m n same ∙ k in
          let found : name_mem (a ∷ p) (scopes [] m) ≡ true =
            subst (λ l. name_mem (a ∷ p) (scopes [] l) ≡ true) (sym name)
              (scopes-mem [] a p x xs) in
          ground arith
      | inr other ↦ rw other (not_listed a p n ns e (ground arith))
    ]

module _ (d : Dwarf) where
  -- The entries right below a scope: each is named in the scope, and none is a unit.
  abbrev pub InScope : Name → Forest → Type 0
  InScope n end = Unit
  InScope n (child (node h below) ts) =
      Extends n (d h).fullname × ((is_unit (d h).tag ≡ false) × InScope n ts)

  -- Full names follow the tree: below a namespace, a structure or a class each entry is named in its
  -- scope.
  abbrev mutual
    pub IsScoped : Tree → Type 0
    IsScoped (node h below) =
        AllScoped below
        × (is_namespace (d h).tag ≡ true
            → ((a : List ℕ) × (p : Name) × ((d h).fullname ≡ a ∷ p)) × InScope (d h).fullname below)

    pub AllScoped : Forest → Type 0
    AllScoped end = Unit
    AllScoped (child t ts) = IsScoped t × AllScoped ts

  refused_type :
      (a : List ℕ) (p : Name) (h : ℕ) (r : TypeRequest)
      → Extends (a ∷ p) (d h).fullname
      → is_type_callable r ≡ false
      → name_mem (a ∷ p) (scopes_of_all (type_names_of r)) ≡ false
      → types_filter_of d r h ≡ refused
  refused_type a p h (callable filter) e c m = ground arith
  refused_type a p h (listed names) e c m = rw (not_listed a p (d h).fullname names e m)

  refused_name :
      (a : List ℕ) (p : Name) (h : ℕ) (r : Request)
      → Extends (a ∷ p) (d h).fullname
      → is_callable r ≡ false
      → name_mem (a ∷ p) (scopes_of_all (names_of r)) ≡ false
      → filter_of d r h ≡ false
  refused_name a p h (callable filter) e c m = ground arith
  refused_name a p h (listed names) e c m = not_listed a p (d h).fullname names e m

  -- The filters with no namespace left out.
  abbrev pub unpruned : Requests → Filters
  unpruned r = record (filters_of d r) { namespaces = λ h. true }

  module _ (w : World) (f : ℕ) where
    module _ (filters : Filters) (h : ℕ) (s : Found) where
      variable-refused : filters.globals h ≡ false → examine_variable d w filters h s ≡ s
      unfolding examine_variable
      variable-refused e = ground arith

      function-refused : filters.functions h ≡ false → examine_function d w filters h s ≡ s
      unfolding examine_function
      function-refused e = ground arith

      type-refused : filters.types h ≡ refused → examine_type d w filters f h s ≡ ok s
      unfolding examine_type take_type
      type-refused e = elim (Bool-cases (is_named_type (d h).tag)) [
        | inl k ↦ rw (k, e, take_type)
        | inr k ↦ rw k
      ]

      -- An entry that no filter wants leaves the resolver as it is, and is descended only if it is a
      -- namespace.
      examine-refused :
          is_unit (d h).tag ≡ false
          → filters.types h ≡ refused
          → filters.functions h ≡ false
          → filters.globals h ≡ false
          → (b : Bool) × (examine_die d w filters f h s ≡ ok (b, s))
            × (b ≡ true → is_namespace (d h).tag ≡ true)
      unfolding examine_die examine_definition
      examine-refused unit types functions globals =
          elim (Bool-cases (not (is_some (d h).name) && not (is_enumeration (d h).tag))) [
            | inl e ↦ (false, rw (unit, e), λ k. cc)
            | inr e ↦ elim (Bool-cases (is_variable (d h).tag)) [
              | inl v ↦ (false, rw (unit, e, v, variable-refused globals), λ k. cc)
              | inr v ↦ elim (Bool-cases (d h).declaration) [
                | inl c ↦ (false, rw (unit, e, v, c), λ k. cc)
                | inr c ↦ elim (Bool-cases (is_subprogram (d h).tag)) [
                  | inl p ↦ (false, rw (unit, e, v, c, p, function-refused functions), λ k. cc)
                  | inr p ↦ (
                    is_namespace (d h).tag && filters.namespaces h,
                    rw (unit, e, v, c, p, type-refused types),
                    λ k. ground arith,
                  )
                ]
              ]
            ]
          ]

    -- Below a namespace that holds no listed name nothing is found.
    module _ (r : Requests) (a : List ℕ) (p : Name) (strict : is_wildcard r ≡ false)
        (unlisted : name_mem (a ∷ p) (all_namespaces r) ≡ false) where
      examine-missed :
          (h : ℕ) (s : Found)
          → is_unit (d h).tag ≡ false
          → Extends (a ∷ p) (d h).fullname
          → (b : Bool) × (examine_die d w (unpruned r) f h s ≡ ok (b, s))
            × (b ≡ true → is_namespace (d h).tag ≡ true)
      unfolding filters_of is_wildcard all_namespaces
      examine-missed h s unit e =
          let one =
            name_mem-append (a ∷ p) (scopes_of_all (type_names_of r.types))
              (scopes_of_all (names_of r.globals) ++ scopes_of_all (names_of r.functions)) in
          let two =
            name_mem-append (a ∷ p) (scopes_of_all (names_of r.globals))
              (scopes_of_all (names_of r.functions)) in
          examine-refused (unpruned r) h s unit
            (refused_type a p h r.types e (ground arith) (ground arith))
            (refused_name a p h r.functions e (ground arith) (ground arith))
            (refused_name a p h r.globals e (ground arith) (ground arith))

      mutual
        unfolding enumerate_dies

        missed_tree :
            (n : Name) (t : Tree) (s : Found)
            → ((m : Name) → Extends n m → Extends (a ∷ p) m)
            → InScope n (child t end)
            → IsScoped t
            → enumerate_dies d w (unpruned r) f t s ≡ ok s
        missed_tree n (node h below) s e i c =
            let deeper = e (d h).fullname i.0 in
            let (b, found, space) = examine-missed h s i.1.0 deeper in
            elim (Bool-cases b) [
              | inl k ↦
                  rw (found, k)
                    (missed_forest (d h).fullname below s
                      (λ m. Extends-trans (a ∷ p) (d h).fullname m deeper) (c.1 (space k)).1 c.0)
              | inr k ↦ rw (found, k)
            ]

        pub missed_forest :
            (n : Name) (ts : Forest) (s : Found)
            → ((m : Name) → Extends n m → Extends (a ∷ p) m)
            → InScope n ts
            → AllScoped ts
            → enumerate_all d w (unpruned r) f ts s ≡ ok s
        missed_forest n end s e i c = refl
        missed_forest n (child (node h below) ts) s e i c =
            rw (missed_tree n (node h below) s e (i.0, (i.1.0, tt)) c.0)
              (missed_forest n ts s e i.1.1 c.1)
