-- ===== src/Examine/Search.antt =====
-- The search with the namespaces that hold none of the listed names left out finds the same.
use ctypegen.Base.{
  ℕ, List, ◌∷◌, Bool, true, false, not, ◌&&◌, Option, none, some, if◌then◌else◌, is_some, ◌≡◌, refl,
  sym, ap, fun_ext, ◌∙◌, subst, Bool-cases, inl, inr, ◌⊎◌,
}
use ctypegen.Dwarf.{Dwarf, Result, ok, err, ◌>>=◌}
use ctypegen.Examine.Keys.{Name, name_mem}
use ctypegen.Examine.Find.{World}
use ctypegen.Examine.Visit.{
  Tree, node, Forest, end, child, Found, is_unit, is_namespace, is_enumeration, is_variable,
  is_subprogram, examine_variable, examine_function, examine_type, take_type, examine_definition,
  examine_die, enumerate_dies, enumerate_all,
}
use ctypegen.Examine.Requests.{
  Requests, all_namespaces, is_wildcard, filters_of, namespaces_of, search_units, fresh_found,
}
use ctypegen.Examine.Pruned.{Extends, InScope, IsScoped, AllScoped, unpruned, missed_forest}

module _ (d : Dwarf) (w : World) (f : ℕ) (r : Requests) where
  -- A namespace is searched, or it holds no listed name and all requests are lists.
  searched :
      (filter : Option (ℕ → Bool)) (h : ℕ)
      → filter ≡ none
      → (namespaces_of d r filter h ≡ true)
        ⊎ ((namespaces_of d r filter h ≡ false)
            × (is_wildcard r ≡ false)
            × (name_mem (d h).fullname (all_namespaces r) ≡ false))
  searched (some filter) h e = cc
  searched none h e = elim (Bool-cases (is_wildcard r)) [
    | inl k ↦ inl (rw k)
    | inr k ↦ elim (Bool-cases (name_mem (d h).fullname (all_namespaces r))) [
      | inl m ↦ inl (rw (k, m))
      | inr m ↦ inr (rw (k, m), k, m)
    ]
  ]

  -- The two searches do the same at an entry, or the one leaves out a namespace with no listed name.
  abbrev SameOrPruned : ℕ → Result (Bool × Found) → Result (Bool × Found) → Type 0
  SameOrPruned h x y =
      (x ≡ y)
      ⊎ ((s : Found) × (x ≡ ok (false, s))
          × (y ≡ ok (true, s))
          × (is_namespace (d h).tag ≡ true)
          × (is_wildcard r ≡ false)
          × (name_mem (d h).fullname (all_namespaces r) ≡ false))

  same_then :
      (h : ℕ) (b : Bool) (x y z : Result (Bool × Found))
      → SameOrPruned h y z
      → SameOrPruned h (if b then x else y) (if b then x else z)
  same_then h true x y z k = inl refl
  same_then h false x y z k = k

  module _ (default : r.namespace_filter ≡ none) where
    compare_namespace :
        (h : ℕ) (x : Result Found)
        → SameOrPruned h
            (do s ← x; ok (is_namespace (d h).tag && namespaces_of d r r.namespace_filter h, s))
            (do s ← x; ok (is_namespace (d h).tag && true, s))
    compare_namespace h (err e) = inl refl
    compare_namespace h (ok s) = elim (Bool-cases (is_namespace (d h).tag)) [
      | inr n ↦ inl (rw n)
      | inl n ↦ elim (searched r.namespace_filter h default) [
        | inl k ↦ inl (rw (n, k))
        | inr (k, wild, m) ↦ inr (s, rw (n, k), rw n, n, wild, m)
      ]
    ]

    compare_die :
        (h : ℕ) (s : Found)
        → SameOrPruned h
            (examine_die d w (filters_of d r) f h s)
            (examine_die d w (unpruned d r) f h s)
    unfolding examine_die examine_definition examine_variable examine_function examine_type
        take_type filters_of
    compare_die h s = same_then h (is_unit (d h).tag) _ _ _ (
        same_then h (not (is_some (d h).name) && not (is_enumeration (d h).tag)) _ _ _ (
          same_then h (is_variable (d h).tag) _ _ _ (
            same_then h (d h).declaration _ _ _ (
              same_then h (is_subprogram (d h).tag) _ _ _
                (compare_namespace h (examine_type d w (filters_of d r) f h s))))))

    -- The steps below an entry, in the two searches.
    abbrev step : (Found → Result Found) → Result (Bool × Found) → Result Found
    step below x = do (descend, s) ← x; let rest = below s; if descend then rest else ok s

    join :
        (h : ℕ) (below below' : Found → Result Found) (x y : Result (Bool × Found))
        → ((s : Found) → below s ≡ below' s)
        → (is_namespace (d h).tag ≡ true
            → is_wildcard r ≡ false
            → name_mem (d h).fullname (all_namespaces r) ≡ false
            → (s : Found) → below' s ≡ ok s)
        → SameOrPruned h x y
        → step below x ≡ step below' y
    join h below below' x y same missed (inl e) =
        ap (λ k. step k x) (fun_ext same) ∙ ap (step below') e
    join h below below' x y same missed (inr (s, e, k, space, wild, m)) =
        rw (e, k) (sym (missed space wild m s))

    missed_below :
        (h : ℕ) (below : Forest) (s : Found)
        → ((a : List ℕ) × (p : Name) × ((d h).fullname ≡ a ∷ p)) × InScope d (d h).fullname below
        → AllScoped d below
        → is_wildcard r ≡ false
        → name_mem (d h).fullname (all_namespaces r) ≡ false
        → enumerate_all d w (unpruned d r) f below s ≡ ok s
    missed_below h below s ((a, p, e), inside) scoped wild m =
        missed_forest d w f r a p wild (subst (λ n. name_mem n (all_namespaces r) ≡ false) e m)
          (d h).fullname below s (λ n k. subst (λ q. Extends q n) e k) inside scoped

    mutual
      unfolding enumerate_dies

      enumerate-unpruned :
          (t : Tree) (s : Found)
          → IsScoped d t
          → enumerate_dies d w (filters_of d r) f t s ≡ enumerate_dies d w (unpruned d r) f t s
      enumerate-unpruned (node h below) s c =
          join h (enumerate_all d w (filters_of d r) f below)
            (enumerate_all d w (unpruned d r) f below) (examine_die d w (filters_of d r) f h s)
            (examine_die d w (unpruned d r) f h s) (λ s'. enumerate_all-unpruned below s' c.0)
            (λ space wild m s'. missed_below h below s' (c.1 space) c.0 wild m) (compare_die h s)

      enumerate_all-unpruned :
          (ts : Forest) (s : Found)
          → AllScoped d ts
          → enumerate_all d w (filters_of d r) f ts s ≡ enumerate_all d w (unpruned d r) f ts s
      enumerate_all-unpruned end s c = refl
      enumerate_all-unpruned (child t ts) s c =
          ap (λ x. (do s' ← x; enumerate_all d w (filters_of d r) f ts s'))
            (enumerate-unpruned t s c.0)
          ∙ ap (λ k. enumerate_dies d w (unpruned d r) f t s >>= k)
              (fun_ext (λ s'. enumerate_all-unpruned ts s' c.1))

-- If full names follow the tree of entries, the search of the resolver gives the same with the
-- namespaces that it leaves out by default as without: what a list of names asks for is found, and all
-- else that the search keeps is the same too, an exception included.
pub search_units-unpruned :
    (d : Dwarf) (w : World) (f : ℕ) (r : Requests) (units : Forest)
    → r.namespace_filter ≡ none
    → AllScoped d units
    → search_units d w f r units ≡ enumerate_all d w (unpruned d r) f units (fresh_found r)
unfolding search_units
search_units-unpruned d w f r units default scoped =
    enumerate_all-unpruned d w f r default units (fresh_found r) scoped
