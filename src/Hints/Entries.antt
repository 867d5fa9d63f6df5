-- ===== src/Hints/Entries.antt =====
-- Which members a structure or union has when the hints are applied: `findMembers` runs once for it.
use ctypegen.Base.{
  ℕ, zero, suc, List, [], ◌∷◌, true, false, any, Option, none, some, ◌==◌, ==_iff, ◌≡◌, refl, sym,
  ◌∙◌, ◌⊎◌, Bool-cases, inl, inr, arith, subst,
}
use ctypegen.Dwarf.{Dwarf, Result, ok}
use ctypegen.Dwarf.Ensures.{
  AnyError, Ensures, returns, raises, Ensures-bind, Ensures-map, Ensures-ok,
}
use ctypegen.Hints.{
  PythonType, Hinted, Taker, member_taker, enum_taker, ignoring, typedef_taker, apply_by,
  apply_hints, apply_each, hint_round, apply_all,
}
use ctypegen.Hints.Finding.{entries_of}
use ctypegen.Hints.Filling.{
  takes_members, Keeps, IsFilled, expected, is_awaited, Keeps-same, Keeps-trans, Keeps-IsFilled,
  apply_members-Keeps, apply_enum-Keeps,
}

module _ (dies : Dwarf) (definition_of : ℕ → ℕ) (type_of : Option ℕ → ℕ) (hint_of : ℕ → PythonType)
    (taker : ℕ → Taker) where
  -- What applying a hint to a type leaves.
  abbrev Applied : ℕ → Taker → Hinted → Result Hinted → Type 0
  Applied t k s r =
      Ensures AnyError
        (λ s'.
          Keeps dies definition_of type_of hint_of taker s s'
          × (takes_members k ≡ true → IsFilled dies definition_of type_of hint_of taker t s'))
        r

  apply_by-Applied :
      (g t : ℕ) (k : Taker) (spec : PythonType) (s : Hinted)
      → ((b : ℕ)
          → Applied b (taker b) s (apply_hints dies definition_of type_of hint_of taker g b spec s))
      → Applied t k s (
          apply_by dies definition_of type_of hint_of taker
            (apply_hints dies definition_of type_of hint_of taker g)
            t
            k
            spec
            s)
  unfolding apply_by
  apply_by-Applied g t member_taker spec s call =
      let (keeps, filled) = apply_members-Keeps dies definition_of type_of hint_of taker t spec s in
      returns (keeps, λ e. filled)
  apply_by-Applied g t enum_taker spec s call =
      returns
        (apply_enum-Keeps dies definition_of type_of hint_of taker t spec.nameless_enum s, λ e. cc)
  apply_by-Applied g t ignoring spec s call =
      returns (Keeps-same dies definition_of type_of hint_of taker s s refl, λ e. cc)
  apply_by-Applied g t (typedef_taker none) spec s call =
      returns (Keeps-same dies definition_of type_of hint_of taker s s refl, λ e. cc)
  apply_by-Applied g t (typedef_taker (some b)) spec s call =
      Ensures-map (call b) λ s' (keeps, filled). (keeps, λ e. cc)

  apply_hints-Applied :
      (g t : ℕ) (spec : PythonType) (s : Hinted)
      → Applied t (taker t) s (apply_hints dies definition_of type_of hint_of taker g t spec s)
  unfolding apply_hints
  apply_hints-Applied zero t spec s = raises tt
  apply_hints-Applied (suc g) t spec s =
      apply_by-Applied g t (taker t) spec s (λ b. apply_hints-Applied g b spec s)

  -- The structures and unions of a list have the members that are expected dies definition_of type_of hint_of taker.
  abbrev AllFilled : List (ℕ × ℕ) → Hinted → Type 0
  AllFilled pending s =
      (t : ℕ)
      → takes_members (taker t) ≡ true
      → any (λ e. e.0 == t) pending ≡ true
      → IsFilled dies definition_of type_of hint_of taker t s

  apply_each-Keeps :
      (f : ℕ) (pending : List (ℕ × ℕ)) (s : Hinted)
      → Ensures AnyError
          (λ s'. Keeps dies definition_of type_of hint_of taker s s' × AllFilled pending s')
          (apply_each dies definition_of type_of hint_of taker f pending s)
  unfolding apply_each
  apply_each-Keeps f [] s =
      returns (Keeps-same dies definition_of type_of hint_of taker s s refl, λ t k e. cc)
  apply_each-Keeps f ((t, hint) ∷ rest) s =
      Ensures-bind (apply_hints-Applied f t (hint_of hint) s) λ s' (g, filled).
        Ensures-map (apply_each-Keeps f rest s') λ s'' (h, all). (
          Keeps-trans dies definition_of type_of hint_of taker s s' s'' g h,
          λ u k e. elim (Bool-cases (t == u)) [
            | inl b ↦
                (let q : t ≡ u = (==_iff t u).0 b in
                  Keeps-IsFilled dies definition_of type_of hint_of taker u s' s'' h (
                    subst (λ v. IsFilled dies definition_of type_of hint_of taker v s') q
                      (filled (rw (sym q) at k))))
            | inr b ↦ all u k (ground arith)
          ],
        )

  abbrev Filling : Hinted → Result Hinted → Type 0
  Filling s r =
      Ensures AnyError
        (λ s'. Keeps dies definition_of type_of hint_of taker s s' × AllFilled s.pending s') r

  hint_round-Filling :
      (f : ℕ) (next : Hinted → Result Hinted) (pending : List (ℕ × ℕ)) (s : Hinted)
      → s.pending ≡ pending
      → ((s' : Hinted) → Filling s' (next s'))
      → Filling s (hint_round dies definition_of type_of hint_of taker f next pending s)
  unfolding hint_round
  hint_round-Filling f next [] s e k = returns (
    Keeps-same dies definition_of type_of hint_of taker s s refl,
    λ t m a. (let none_left = rw e at a in cc),
  )
  hint_round-Filling f next (one ∷ rest) s e k =
      let s0 = record s { pending = [] } in
      Ensures-bind (apply_each-Keeps f (one ∷ rest) s0) λ s' (g, all).
        Ensures-map (k s') λ s'' (h, _). (
          Keeps-trans dies definition_of type_of hint_of taker s s' s''
              (Keeps-trans dies definition_of type_of hint_of taker s s0 s'
                (Keeps-same dies definition_of type_of hint_of taker s s0 refl) g)
              h,
          λ t m a.
              Keeps-IsFilled dies definition_of type_of hint_of taker t s' s'' h
                (all t m (rw e at a)),
        )

  apply_all-Filling :
      (f n : ℕ) (s : Hinted) → Filling s (apply_all dies definition_of type_of hint_of taker f n s)
  unfolding apply_all
  apply_all-Filling f zero s = raises tt
  apply_all-Filling f (suc n) s =
      hint_round-Filling f (apply_all dies definition_of type_of hint_of taker f n) s.pending s refl
        (apply_all-Filling f n)

  -- If the loop that applies the hints returns, each type with members has the entries of those, in their
  -- order, and one without has, if a hint was to be applied to it at the start and it is a structure or union,
  -- the entries of the fields and base classes of its definition that are not external, in their order, and
  -- otherwise none or these.
  pub apply_all-entries_of :
      (f n : ℕ) (s s' : Hinted)
      → apply_all dies definition_of type_of hint_of taker f n s ≡ ok s'
      → (t : ℕ)
      → (entries_of (s'.shapes t) ≡ expected dies definition_of type_of hint_of taker s t)
        ⊎ ((entries_of (s'.shapes t) ≡ entries_of (s.shapes t))
            × (is_awaited dies definition_of type_of hint_of taker s t ≡ false))
  apply_all-entries_of f n s s' e t =
      let (keeps, all) = Ensures-ok (apply_all-Filling f n s) e in
      elim (Bool-cases (is_awaited dies definition_of type_of hint_of taker s t)) [
        | inl a ↦ inl (all t (ground arith) (ground arith) ∙ (keeps t).0)
        | inr a ↦ elim (keeps t).1 [ inl k ↦ inr (k, a) | inr k ↦ inl k ]
      ]
