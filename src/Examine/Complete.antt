-- ===== src/Examine/Complete.antt =====
-- The search finds what it was asked for in all entries that it reaches, and nothing else.
use ctypegen.Base.{ℕ, suc, ◌<◌, true, ◌≡◌, subst, inl, inr, ◌⊎◌}
use ctypegen.Dwarf.{Dwarf}
use ctypegen.Dwarf.Ensures.{Ensures, returns, Ensures-bind, Ensures-map, Ensures-if}
use ctypegen.Examine.Find.{World}
use ctypegen.Examine.Kept.{IsRanked, OnlyAttribute}
use ctypegen.Examine.Visit.{
  Tree, node, Forest, end, child, Filters, Found, enumerate_dies, enumerate_all,
}
use ctypegen.Examine.Sound.{
  IsSound, FoundStays, IsTaken, descends, FoundStays-same, FoundStays-trans, examine_die-Ensures,
}

-- An entry that the search reaches.
module _ (d : Dwarf) (filters : Filters) (h : ℕ) where
  abbrev mutual
    pub Reached : Tree → Type 0
    Reached (node g below) = (g ≡ h) ⊎ ((descends d filters g ≡ true) × ReachedIn below)

    pub ReachedIn : Forest → Type 0
    ReachedIn end = ⊥
    ReachedIn (child t ts) = Reached t ⊎ ReachedIn ts

module _ (d : Dwarf) (filters : Filters) (w : World) (rank : ℕ → ℕ) (ranked : IsRanked d w rank)
    (f : ℕ) (enough : (h : ℕ) → suc (rank h) < f) where
  abbrev After : Found → Found → Type 0
  After s s' = FoundStays d filters s s' × (IsSound d filters s → IsSound d filters s')

  IsTaken-stays :
      (h : ℕ) (s s' : Found)
      → FoundStays d filters s s'
      → IsTaken d filters h s
      → IsTaken d filters h s'
  IsTaken-stays h s s' (f', (v, t)) (a, b) = (
    λ k. let (g, e) = a k in (g, f' (d h).fullname g e),
    λ k. let (g, e) = b k in (g, v (d h).fullname g e),
  )

  mutual
    unfolding enumerate_dies

    enumerate-Ensures :
        (t : Tree) (s : Found)
        → Ensures OnlyAttribute
            (λ s'. After s s' × ((h : ℕ) → Reached d filters h t → IsTaken d filters h s'))
            (enumerate_dies d w filters f t s)
    enumerate-Ensures (node g below) s =
        Ensures-bind (examine_die-Ensures d filters w rank ranked f enough g s) λ (b, s') q.
          Ensures-if b
            (λ e. Ensures-map (enumerate_all-Ensures below s') λ s'' p. (
              (FoundStays-trans d filters s s' s'' q.1.0 p.0.0, λ k. p.0.1 (q.1.1.0 k)),
              λ h r. elim r [
                | inl k ↦
                    subst (λ x. IsTaken d filters x s'') k (IsTaken-stays g s' s'' p.0.0 q.1.1.1)
                | inr k ↦ p.1 h k.1
              ],
            ))
            λ e. returns (
              (q.1.0, q.1.1.0),
              λ h r. elim r [ inl k ↦ subst (λ x. IsTaken d filters x s') k q.1.1.1 | inr k ↦ cc ],
            )

    enumerate_all-Ensures :
        (ts : Forest) (s : Found)
        → Ensures OnlyAttribute
            (λ s'. After s s' × ((h : ℕ) → ReachedIn d filters h ts → IsTaken d filters h s'))
            (enumerate_all d w filters f ts s)
    enumerate_all-Ensures end s = returns ((FoundStays-same d filters s, λ k. k), λ h r. absurd r)
    enumerate_all-Ensures (child t ts) s = Ensures-bind (enumerate-Ensures t s) λ s' q.
        Ensures-map (enumerate_all-Ensures ts s') λ s'' p. (
          (FoundStays-trans d filters s s' s'' q.0.0 p.0.0, λ k. p.0.1 (q.0.1 k)),
          λ h r. elim r [ inl k ↦ IsTaken-stays h s' s'' p.0.0 (q.1 h k) | inr k ↦ p.1 h k ],
        )

-- With fuel for the chains of types the search ends, unless a type is missing where the class of an
-- entry is looked for. Then each function and variable that it has found before is kept, and so is each
-- type object; if all that was found fits its filter, that still holds; and for each entry that the
-- search reaches, a function or variable that its filter accepts has an entry under its full name.
pub enumerate_all-IsComplete :
    (d : Dwarf) (filters : Filters) (w : World) (rank : ℕ → ℕ) (f : ℕ) (ts : Forest) (s : Found)
    → IsRanked d w rank
    → ((h : ℕ) → suc (rank h) < f)
    → Ensures OnlyAttribute
        (λ s'.
          FoundStays d filters s s'
          × (IsSound d filters s → IsSound d filters s')
          × ((h : ℕ) → ReachedIn d filters h ts → IsTaken d filters h s'))
        (enumerate_all d w filters f ts s)
enumerate_all-IsComplete d filters w rank f ts s ranked enough =
    Ensures-map (enumerate_all-Ensures d filters w rank ranked f enough ts s)
      λ s' q. (q.0.0, q.0.1, q.1)
