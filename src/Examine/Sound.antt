-- ===== src/Examine/Sound.antt =====
-- What the search does at an entry: what it finds was asked for, and is not lost again.
use ctypegen.Base.{
  ℕ, suc, ◌<◌, Bool, true, false, ◌&&◌, ◌||◌, not, is_some, ◌≡◌, arith, Bool-cases, inl, inr,
}
use ctypegen.Dwarf.{Tag, Dwarf}
use ctypegen.Dwarf.Ensures.{Ensures, returns, Ensures-bind, Ensures-if}
use ctypegen.Examine.Keys.{find_name}
use ctypegen.Examine.Find.{World, die_to_type}
use ctypegen.Examine.Kept.{
  Keeps, Keeps-same, Keeps-trans, IsRanked, OnlyAttribute, type_of_die-IsKept,
}
use ctypegen.Examine.Visit.{
  Answer, refused, wanted, hinted, Filters, Found, is_unit, is_named_type, is_namespace,
  is_enumeration, is_variable, is_subprogram, is_open, want_type, add_producer, examine_variable,
  examine_function, take_type, examine_type, examine_definition, examine_die,
}
use ctypegen.Examine.Entries.{
  IsFound, Stays, is_open-found, put-Stays, put-IsFound, AllFit, put-AllFit,
}

subprogram_alone :
    (t : Tag)
    → is_subprogram t ≡ true
    → (is_unit t ≡ false) × (is_variable t ≡ false) × (is_enumeration t ≡ false)
subprogram_alone t h = ground arith

unit_alone : (t : Tag) → is_unit t ≡ true → (is_subprogram t ≡ false) × (is_variable t ≡ false)
unit_alone t h = ground arith

variable_alone :
    (t : Tag) → is_variable t ≡ true → (is_subprogram t ≡ false) × (is_enumeration t ≡ false)
variable_alone t h = ground arith

module _ (d : Dwarf) (filters : Filters) where
  -- A function, or a variable, that the filter accepts.
  abbrev pub fits_function : ℕ → Bool
  fits_function h =
      is_subprogram (d h).tag
      && (is_some (d h).name && (not (d h).declaration && filters.functions h))

  abbrev pub fits_variable : ℕ → Bool
  fits_variable h = is_variable (d h).tag && (is_some (d h).name && filters.globals h)

  abbrev pub IsSound : Found → Type 0
  IsSound s = AllFit d fits_function s.functions × AllFit d fits_variable s.variables

  abbrev pub FoundStays : Found → Found → Type 0
  FoundStays s s' =
      Stays s.functions s'.functions × (Stays s.variables s'.variables × Keeps s.tables s'.tables)

  -- What the search of an entry finds of it.
  abbrev pub IsTaken : ℕ → Found → Type 0
  IsTaken h s =
      (fits_function h ≡ true → IsFound (d h).fullname s.functions)
      × (fits_variable h ≡ true → IsFound (d h).fullname s.variables)

  -- The entries below are searched.
  abbrev pub descends : ℕ → Bool
  descends h =
      is_unit (d h).tag
      || ((is_some (d h).name || is_enumeration (d h).tag)
          && (not (is_variable (d h).tag)
              && (not (d h).declaration
                  && (not (is_subprogram (d h).tag)
                      && (is_namespace (d h).tag && filters.namespaces h)))))

  abbrev pub AfterEntry : ℕ → Found → Bool × Found → Type 0
  AfterEntry h s (b, s') =
      (b ≡ descends h) × (FoundStays s s' × ((IsSound s → IsSound s') × IsTaken h s'))

  nothing-IsTaken :
      (h : ℕ) (s : Found) → fits_function h ≡ false → fits_variable h ≡ false → IsTaken h s
  nothing-IsTaken h s f v = (λ k. cc, λ k. cc)

  pub FoundStays-same : (s : Found) → FoundStays s s
  FoundStays-same s = (λ n h e. e, (λ n h e. e, Keeps-same s.tables))

  pub FoundStays-trans : (s s' s'' : Found) → FoundStays s s' → FoundStays s' s'' → FoundStays s s''
  FoundStays-trans s s' s'' (f, (v, t)) (g, (u, k)) = (
    λ n h e. g n h (f n h e),
    (λ n h e. u n h (v n h e), Keeps-trans s.tables s'.tables s''.tables t k),
  )

  module _ (w : World) where
    examine_variable-After :
        (h : ℕ) (s : Found)
        → is_variable (d h).tag ≡ true
        → is_some (d h).name ≡ true
        → (FoundStays s (examine_variable d w filters h s)
            × ((IsSound s → IsSound (examine_variable d w filters h s))
                × (filters.globals h ≡ true
                    → IsFound (d h).fullname (examine_variable d w filters h s).variables)))
    unfolding examine_variable
    examine_variable-After h s tag name =
        elim (Bool-cases (filters.globals h && is_open (find_name (d h).fullname s.variables))) [
          | inl b ↦ rw b (
            (
              λ n g e. e,
              (put-Stays (d h).fullname h s.variables (ground arith), Keeps-same s.tables),
            ),
            (
              λ sound. (sound.0, put-AllFit d fits_variable h s.variables (ground arith) sound.1),
              λ k. put-IsFound (d h).fullname h s.variables,
            ),
          )
          | inr b ↦ rw b (
            FoundStays-same s,
            (
              λ sound. sound,
              λ k. is_open-found (find_name (d h).fullname s.variables) (ground arith),
            ),
          )
        ]

    examine_function-After :
        (h : ℕ) (s : Found)
        → is_subprogram (d h).tag ≡ true
        → is_some (d h).name ≡ true
        → (d h).declaration ≡ false
        → (FoundStays s (examine_function d w filters h s)
            × ((IsSound s → IsSound (examine_function d w filters h s))
                × (filters.functions h ≡ true
                    → IsFound (d h).fullname (examine_function d w filters h s).functions)))
    unfolding examine_function
    examine_function-After h s tag name defined =
        elim (Bool-cases (is_open (find_name (d h).fullname s.functions) && filters.functions h)) [
          | inl b ↦ rw b (
            (
              put-Stays (d h).fullname h s.functions (ground arith),
              (λ n g e. e, Keeps-same s.tables),
            ),
            (
              λ sound. (put-AllFit d fits_function h s.functions (ground arith) sound.0, sound.1),
              λ k. put-IsFound (d h).fullname h s.functions,
            ),
          )
          | inr b ↦ rw b (
            FoundStays-same s,
            (
              λ sound. sound,
              λ k. is_open-found (find_name (d h).fullname s.functions) (ground arith),
            ),
          )
        ]

    module _ (rank : ℕ → ℕ) (ranked : IsRanked d w rank) (f : ℕ)
        (enough : (h : ℕ) → suc (rank h) < f) where
      abbrev AfterType : Found → Found → Type 0
      AfterType s s' = FoundStays s s' × (IsSound s → IsSound s')

      take_type-Ensures :
          (h : ℕ) (answer : Answer) (s : Found)
          → Ensures OnlyAttribute (AfterType s) (take_type d w filters f h answer s)
      unfolding take_type die_to_type want_type
      take_type-Ensures h refused s = returns (FoundStays-same s, λ k. k)
      take_type-Ensures h wanted s =
          Ensures-bind (type_of_die-IsKept d w rank ranked f h s.tables (enough h))
            λ (t, tables) q. returns ((λ n g e. e, (λ n g e. e, q.1.0)), λ k. k)
      take_type-Ensures h (hinted hint) s =
          Ensures-bind (type_of_die-IsKept d w rank ranked f h s.tables (enough h))
            λ (t, tables) q. returns ((λ n g e. e, (λ n g e. e, q.1.0)), λ k. k)

      examine_type-Ensures :
          (h : ℕ) (s : Found) → Ensures OnlyAttribute (AfterType s) (examine_type d w filters f h s)
      unfolding examine_type
      examine_type-Ensures h s =
          Ensures-if (is_named_type (d h).tag) (λ e. take_type-Ensures h (filters.types h) s)
            λ e. returns (FoundStays-same s, λ k. k)

      pub examine_die-Ensures :
          (h : ℕ) (s : Found)
          → Ensures OnlyAttribute (AfterEntry h s) (examine_die d w filters f h s)
      unfolding examine_die examine_definition
      examine_die-Ensures h s =
          Ensures-if (is_unit (d h).tag)
            (λ u. returns (
              ground arith,
              (
                FoundStays-same s,
                (
                  λ k. k,
                  let a = unit_alone (d h).tag u in
                      nothing-IsTaken h
                        (record s { producers = add_producer (w.producer h) s.producers })
                        (ground arith) (ground arith),
                ),
              ),
            ))
            λ u.
              Ensures-if (not (is_some (d h).name) && not (is_enumeration (d h).tag))
                (λ n. returns (
                  ground arith,
                  (
                    FoundStays-same s,
                    (
                      λ k. k,
                      nothing-IsTaken h s (ground (arith, subprogram_alone (d h).tag))
                          (ground (arith, variable_alone (d h).tag)),
                    ),
                  ),
                ))
                λ n.
                  Ensures-if (is_variable (d h).tag)
                    (λ v.
                      let alone = variable_alone (d h).tag v in
                      let name : is_some (d h).name ≡ true = ground arith in
                      let after = examine_variable-After h s v name in
                      returns (
                        ground arith,
                        (
                          after.0,
                          (after.1.0, (λ k. absurd (ground arith), λ k. after.1.1 (ground arith))),
                        ),
                      ))
                    λ v.
                      Ensures-if (d h).declaration
                        (λ c. returns (
                          ground arith,
                          (
                            FoundStays-same s,
                            (λ k. k, nothing-IsTaken h s (ground arith) (ground arith)),
                          ),
                        ))
                        λ c.
                          Ensures-if (is_subprogram (d h).tag)
                            (λ p.
                              let alone = subprogram_alone (d h).tag p in
                              let name : is_some (d h).name ≡ true = ground arith in
                              let after = examine_function-After h s p name c in
                              returns (
                                ground arith,
                                (
                                  after.0,
                                  (
                                    after.1.0,
                                    (λ k. after.1.1 (ground arith), λ k. absurd (ground arith)),
                                  ),
                                ),
                              ))
                            λ p. Ensures-bind (examine_type-Ensures h s) λ s' q. returns (
                              ground arith,
                              (q.0, (q.1, nothing-IsTaken h s' (ground arith) (ground arith))),
                            )
