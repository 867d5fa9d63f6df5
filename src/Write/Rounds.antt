-- ===== src/Write/Rounds.antt =====
-- The rounds over `defineTypes` come to an end, and leave no type to define.
use ctypegen.Base.{
  ℕ, zero, suc, ◌+◌, ◌<◌, ◌≤◌, List, [], ◌∷◌, Bool, true, false, ◌==◌, ◌≡◌, refl, sym, arith, ◌⊎◌,
  inl, inr, Bool-cases, ==_iff, if◌then◌else◌, subst,
}
use ctypegen.Dwarf.{Result}
use ctypegen.Dwarf.Ensures.{
  AnyError, Never, Ensures, returns, raises, Ensures-bind, Ensures-map, Ensures-ok,
}
use ctypegen.Resolve.{TypeObject, State, is_in, Mode, defining, define_all, resolve}
use ctypegen.Resolve.Needs.{
  Settled, AllSettled, Complete, Complete-Grows, Grows, Grows-same, Grows-trans, Settled-Grows,
}
use ctypegen.Resolve.Ranked.{AllBelow, IsRanked}
use ctypegen.Resolve.Bodies.{define_all-Ensures}
use ctypegen.Resolve.Total.{resolve-Ensures}
use ctypegen.Write.{insert, sorted, distinct, Sources, type_lt, round, define_wanted}
use ctypegen.Write.Moves.{is_pointer_class, Moves}
use ctypegen.Write.Progress.{resolve-Moves, define_all-Moves}

-- Both what a call that does not raise ensures, and what it ensures if it returns.
pub Ensures-both :
    {A : Type 0} {P Q : A → Type 0} {r : Result A}
    → Ensures Never P r
    → Ensures AnyError Q r
    → Ensures Never (λ a. P a × Q a) r
Ensures-both (returns h) e = returns (h, Ensures-ok e refl)
Ensures-both (raises h) e = absurd h

-- How many of the types are not defined.
abbrev pub missing : List ℕ → State → ℕ
missing [] s = 0
missing (t ∷ ts) s = (if is_in t s.defined then 0 else 1) + missing ts s

abbrev Kept : State → State → Type 0
Kept s s' = (t : ℕ) → is_in t s.defined ≡ true → is_in t s'.defined ≡ true

missing-le : (ts : List ℕ) (s s' : State) → Kept s s' → missing ts s' ≤ missing ts s
missing-le [] s s' k = omega arith
missing-le (t ∷ ts) s s' k = ground (arith, k t, missing-le ts s s' k)

missing-lt :
    (ts : List ℕ) (u : ℕ) (s s' : State)
    → Kept s s'
    → is_in u ts ≡ true
    → is_in u s.defined ≡ false
    → is_in u s'.defined ≡ true
    → missing ts s' < missing ts s
missing-lt [] u s s' k m a b = cc
missing-lt (t ∷ ts) u s s' k m a b = elim (Bool-cases (t == u)) [
  | inl e ↦
      (let same : t ≡ u = (==_iff t u).0 e in
        let le = missing-le ts s s' k in
        subst (λ v. missing (v ∷ ts) s' < missing (v ∷ ts) s) (sym same) (ground (arith)))
  | inr e ↦ (let lt = missing-lt ts u s s' k (ground arith) a b in ground (arith, k t))
]

-- Members of the sorted list.
insert_member :
    (lt : ℕ → ℕ → Bool) (t u : ℕ) (us : List ℕ)
    → is_in t (u ∷ us) ≡ true
    → is_in t (insert lt u us) ≡ true
unfolding insert
insert_member lt t u [] h = h
insert_member lt t u (v ∷ us) h = elim (Bool-cases (lt v u)) [
  | inl e ↦ rw e (ground (arith, insert_member lt t u us))
  | inr e ↦ rw e h
]

sorted_member :
    (lt : ℕ → ℕ → Bool) (t : ℕ) (ts : List ℕ) → is_in t ts ≡ true → is_in t (sorted lt ts) ≡ true
unfolding sorted
sorted_member lt t [] h = h
sorted_member lt t (u ∷ ts) h =
    insert_member lt t u (sorted lt ts) (ground (arith, sorted_member lt t ts))

member_again :
    (t u : ℕ) (ts : List ℕ) → is_in u ts ≡ true → is_in t (u ∷ ts) ≡ true → is_in t ts ≡ true
member_again t u ts e h = elim (Bool-cases (u == t)) [
  | inl same ↦ subst (λ v. is_in v ts ≡ true) ((==_iff u t).0 same) e
  | inr other ↦ ground arith
]

distinct_member : (t : ℕ) (ts : List ℕ) → is_in t ts ≡ true → is_in t (distinct ts) ≡ true
unfolding distinct
distinct_member t [] h = h
distinct_member t (u ∷ ts) h = elim (Bool-cases (is_in u ts)) [
  | inl e ↦ rw e (distinct_member t ts (member_again t u ts e h))
  | inr e ↦ rw e (ground (arith, distinct_member t ts))
]

AllSettled-member :
    (types : ℕ → TypeObject) (s : State) (t : ℕ) (ts : List ℕ)
    → AllSettled types s ts
    → is_in t ts ≡ true
    → Settled types s t
AllSettled-member types s t [] all h = cc
AllSettled-member types s t (u ∷ ts) all h = elim (Bool-cases (u == t)) [
  | inl same ↦ subst (Settled types s) ((==_iff u t).0 same) all.0
  | inr other ↦ AllSettled-member types s t ts all.1 (ground arith)
]

module _ (x : Sources) (rank : Mode → ℕ → ℕ) (f : ℕ) (ranked : IsRanked x.types rank)
    (enough : (mode : Mode) (t : ℕ) → rank mode t < f) (pointers : List ℕ)
    (listed : (u : ℕ) → is_pointer_class (x.types u).class ≡ true → is_in u pointers ≡ true) where
  AllBelow_lem : (ts : List ℕ) → AllBelow rank f ts
  AllBelow_lem [] = tt
  AllBelow_lem (t ∷ ts) = (enough defining t, AllBelow_lem ts)

  -- What the rounds leave of the types that were to be defined.
  abbrev pub Finished : State → State → Type 0
  Finished s s' =
      Grows x.types s s'
      × (Complete x.types s'
          × ((s'.wanted ≡ []) × ((t : ℕ) → is_in t s.wanted ≡ true → Settled x.types s' t)))

  -- Rounds for the types that may be asked for.
  abbrev pub HasRounds : ℕ → State → Type 0
  HasRounds n s = ((s.wanted ≡ []) × (0 < n)) ⊎ (missing pointers s + 1 < n)

  abbrev emptied : State → State
  emptied s = record s { wanted = [] }

  Moves-HasRounds :
      (n : ℕ) (s s' : State)
      → missing pointers s + 1 < suc n
      → Moves x.types (emptied s) s'
      → 0 < n
      → HasRounds n s'
  Moves-HasRounds n s s' e (k, inl w) p = inl (w, p)
  Moves-HasRounds n s s' e (k, inr ((u, p, a, b), kept)) q =
      inr (omega (arith, missing-lt pointers u s s' k (listed u p) a b))

  define_all-Both :
      (ts : List ℕ) (s : State)
      → Complete x.types s
      → Ensures Never
          (λ s'.
            (Grows x.types s s' × (Complete x.types s' × AllSettled x.types s' ts))
            × Moves x.types s s')
          (define_all (resolve x.types x.deep f) ts s)
  define_all-Both ts s c =
      Ensures-both
        (define_all-Ensures x.types x.deep rank f (resolve x.types x.deep f)
          (λ mode t s' h c'. resolve-Ensures x.types x.deep rank f mode t s' ranked h c') ts s
          (AllBelow_lem ts) c)
        (define_all-Moves x.types x.deep (resolve x.types x.deep f) (resolve-Moves x.types x.deep f)
          ts s)

  -- What a round and those behind it leave.
  round-Finished :
      (t : ℕ) (ts : List ℕ) (s s' s'' : State)
      → s.wanted ≡ t ∷ ts
      → Grows x.types (emptied s) s'
      → AllSettled x.types s' (sorted (type_lt x) (distinct (t ∷ ts)))
      → Finished s' s''
      → Finished s s''
  round-Finished t ts s s' s'' w g all (g', (c, (e, settled))) = (
    Grows-trans x.types s (emptied s) s'' (λ u h. h, λ u h. h)
        (Grows-trans x.types (emptied s) s' s'' g g'),
    (
      c,
      (
        e,
        λ u h. Settled-Grows x.types s' s'' g' u (
            AllSettled-member x.types s' u _ all (
              sorted_member (type_lt x) u _
                (distinct_member u (t ∷ ts) (subst (λ l. is_in u l ≡ true) w h)))),
      ),
    ),
  )

  round-Ensures :
      (n : ℕ) (ts : List ℕ) (s : State)
      → s.wanted ≡ ts
      → HasRounds (suc n) s
      → Complete x.types s
      → ((s' : State)
          → HasRounds n s'
          → Complete x.types s'
          → Ensures Never (Finished s') (define_wanted x (resolve x.types x.deep f) n s'))
      → Ensures Never
          (Finished s)
          (round x (resolve x.types x.deep f) (define_wanted x (resolve x.types x.deep f) n) ts s)
  unfolding round
  round-Ensures n [] s w r c next =
      returns
        (Grows-same x.types s, (c, (w, λ t h. (let k = subst (λ l. is_in t l ≡ true) w h in cc))))
  round-Ensures n (t ∷ ts) s w (inl (e, p)) c next = cc
  round-Ensures n (t ∷ ts) s w (inr r) c next =
      let c' : Complete x.types (emptied s) =
        Complete-Grows x.types s (emptied s) (λ u h. h, λ u h. h) c (λ u h. h) in
      Ensures-bind (define_all-Both (sorted (type_lt x) (distinct (t ∷ ts))) (emptied s) c')
        λ s' ((g, (c'', all)), m).
          Ensures-map (next s' (Moves-HasRounds n s s' r m (omega arith)) c'')
            λ s'' done. round-Finished t ts s s' s'' w g all done

  pub define_wanted-Ensures :
      (n : ℕ) (s : State)
      → HasRounds n s
      → Complete x.types s
      → Ensures Never (Finished s) (define_wanted x (resolve x.types x.deep f) n s)
  unfolding define_wanted
  define_wanted-Ensures zero s (inl (e, p)) c = absurd (omega arith)
  define_wanted-Ensures zero s (inr p) c = absurd (omega arith)
  define_wanted-Ensures (suc n) s r c =
      round-Ensures n s.wanted s refl r c (define_wanted-Ensures n)
