-- ===== src/Hints/Rounds.antt =====
-- The loop that applies hints comes to an end.
use ctypegen.Base.{
  ℕ, zero, suc, ◌<◌, List, [], ◌∷◌, Bool, Option, none, some, Text, text_eq, lookup, ◌==◌, ◌≡◌,
  refl, subst, arith, Bool-cases, inl, inr,
}
use ctypegen.Dwarf.{Dwarf, ok}
use ctypegen.Dwarf.Ensures.{Never, Ensures, returns, Ensures-bind, Ensures-Never}
use ctypegen.Hints.{
  Hint, PythonType, Hinted, Taker, member_taker, enum_taker, ignoring, typedef_taker, put,
  register_type, register, register_all, apply_members, apply_enum, apply_by, apply_hints,
  apply_each, hint_round, apply_all,
}
use ctypegen.Layout.Members.{Member}

module _ (rank : ℕ → ℕ) where
  -- The hint for the type of a member has a smaller rank.
  abbrev pub TypenameBelow : ℕ → Option ℕ → Type 0
  TypenameBelow n none = Unit
  TypenameBelow n (some hint) = rank hint < n

  abbrev pub FieldsBelow : ℕ → List (Text × Hint) → Type 0
  FieldsBelow n [] = Unit
  FieldsBelow n ((name, hint) ∷ rest) = TypenameBelow n hint.typename × FieldsBelow n rest

  abbrev pub PendingBelow : ℕ → List (ℕ × ℕ) → Type 0
  PendingBelow n [] = Unit
  PendingBelow n ((t, hint) ∷ rest) = (rank hint < n) × PendingBelow n rest

  put-PendingBelow :
      (n t hint : ℕ) (pending : List (ℕ × ℕ))
      → rank hint < n
      → PendingBelow n pending
      → PendingBelow n (put t hint pending)
  unfolding put
  put-PendingBelow n t hint [] h p = (h, tt)
  put-PendingBelow n t hint ((u, old) ∷ rest) h p = elim (Bool-cases (u == t)) [
    | inl e ↦ rw e (h, p.1)
    | inr e ↦ rw e (p.0, put-PendingBelow n t hint rest h p.1)
  ]

  lookup-FieldsBelow :
      (n : ℕ) (name : Text) (hints : List (Text × Hint)) (hint : Hint)
      → FieldsBelow n hints
      → lookup name hints ≡ some hint
      → TypenameBelow n hint.typename
  unfolding lookup
  lookup-FieldsBelow n name [] hint b e = cc
  lookup-FieldsBelow n name ((key, h) ∷ rest) hint b e = elim (Bool-cases (text_eq key name)) [
    | inl same ↦
        (let found : some h ≡ some hint = rw same at e in
          let same_hint : h ≡ hint = cc in
          subst (λ (k : Hint). TypenameBelow n k.typename) same_hint b.0)
    | inr other ↦ lookup-FieldsBelow n name rest hint b.1 (rw other at e)
  ]

  TypenameBelow-le :
      (m n : ℕ) (typename : Option ℕ)
      → m < suc n
      → TypenameBelow m typename
      → TypenameBelow n typename
  TypenameBelow-le m n none h b = tt
  TypenameBelow-le m n (some hint) h b = omega arith

  FieldsBelow-le :
      (m n : ℕ) (hints : List (Text × Hint)) → m < suc n → FieldsBelow m hints → FieldsBelow n hints
  FieldsBelow-le m n [] h b = tt
  FieldsBelow-le m n ((name, hint) ∷ rest) h b =
      (TypenameBelow-le m n hint.typename h b.0, FieldsBelow-le m n rest h b.1)

  module _ (dies : Dwarf) (definition_of : ℕ → ℕ) (type_of : Option ℕ → ℕ)
      (hint_of : ℕ → PythonType) (taker : ℕ → Taker) where
    register_type-PendingBelow :
        (n : ℕ) (typename : Option ℕ) (m : Member) (s : Hinted)
        → TypenameBelow n typename
        → PendingBelow n s.pending
        → PendingBelow n
            (register_type dies definition_of type_of hint_of taker typename m s).pending
    unfolding register_type
    register_type-PendingBelow n none m s b p = p
    register_type-PendingBelow n (some hint) m s b p = put-PendingBelow n _ hint s.pending b p

    register-PendingBelow :
        (n : ℕ) (hint : Option Hint) (m : Member) (s : Hinted)
        → ((h : Hint) → hint ≡ some h → TypenameBelow n h.typename)
        → PendingBelow n s.pending
        → PendingBelow n (register dies definition_of type_of hint_of taker hint m s).pending
    unfolding register
    register-PendingBelow n none m s b p = p
    register-PendingBelow n (some h) m s b p =
        register_type-PendingBelow n h.typename m s (b h refl) p

    register_all-PendingBelow :
        (n : ℕ) (hints : List (Text × Hint)) (ms : List Member) (s : Hinted)
        → FieldsBelow n hints
        → PendingBelow n s.pending
        → PendingBelow n (register_all dies definition_of type_of hint_of taker hints ms s).pending
    unfolding register_all
    register_all-PendingBelow n hints [] s b p = p
    register_all-PendingBelow n hints (m ∷ ms) s b p = register_all-PendingBelow n hints ms _ b (
        register-PendingBelow n (lookup m.name hints) m s
          (λ h e. lookup-FieldsBelow n m.name hints h b e) p)

    apply_enum-PendingBelow :
        (n t : ℕ) (nameless : Option Bool) (s : Hinted)
        → PendingBelow n s.pending
        → PendingBelow n (apply_enum dies definition_of type_of hint_of taker t nameless s).pending
    unfolding apply_enum
    apply_enum-PendingBelow n t none s p = p
    apply_enum-PendingBelow n t (some b) s p = p

    module _ (types_rank : ℕ → ℕ) (f : ℕ)
        (aliased : (t b : ℕ) → taker t ≡ typedef_taker (some b) → types_rank b < types_rank t)
        (ranked : (hint : ℕ) → FieldsBelow (rank hint) (hint_of hint).field_hints) where
      -- All hints that are still to be applied have a smaller rank.
      abbrev Below : ℕ → Hinted → Type 0
      Below n s = PendingBelow n s.pending

      apply_by-Below :
          (g n t hint : ℕ) (k : Taker) (s : Hinted)
          → taker t ≡ k
          → rank hint < suc n
          → Below n s
          → ((b : ℕ)
              → types_rank b < types_rank t
              → Ensures Never
                  (Below n)
                  (apply_hints dies definition_of type_of hint_of taker g b (hint_of hint) s))
          → Ensures Never (Below n) (
              apply_by dies definition_of type_of hint_of taker
                (apply_hints dies definition_of type_of hint_of taker g)
                t
                k
                (hint_of hint)
                s)
      unfolding apply_by apply_members
      apply_by-Below g n t hint member_taker s e h p call = returns (
          register_all-PendingBelow n (hint_of hint).field_hints _ _
            (FieldsBelow-le (rank hint) n _ h (ranked hint)) p)
      apply_by-Below g n t hint enum_taker s e h p call =
          returns (apply_enum-PendingBelow n t (hint_of hint).nameless_enum s p)
      apply_by-Below g n t hint ignoring s e h p call = returns p
      apply_by-Below g n t hint (typedef_taker none) s e h p call = returns p
      apply_by-Below g n t hint (typedef_taker (some b)) s e h p call = call b (aliased t b e)

      apply_hints-Below :
          (g n t hint : ℕ) (s : Hinted)
          → types_rank t < g
          → rank hint < suc n
          → Below n s
          → Ensures Never
              (Below n)
              (apply_hints dies definition_of type_of hint_of taker g t (hint_of hint) s)
      unfolding apply_hints
      apply_hints-Below zero n t hint s e h p = absurd (omega arith)
      apply_hints-Below (suc g) n t hint s e h p =
          apply_by-Below g n t hint (taker t) s refl h p
            (λ b k. apply_hints-Below g n b hint s (omega arith) h p)

      module _ (enough : (t : ℕ) → types_rank t < f) where
        apply_each-Below :
            (n : ℕ) (pending : List (ℕ × ℕ)) (s : Hinted)
            → PendingBelow (suc n) pending
            → Below n s
            → Ensures Never
                (Below n)
                (apply_each dies definition_of type_of hint_of taker f pending s)
        unfolding apply_each
        apply_each-Below n [] s b p = returns p
        apply_each-Below n ((t, hint) ∷ rest) s b p =
            Ensures-bind (apply_hints-Below f n t hint s (enough t) b.0 p)
              λ s' p'. apply_each-Below n rest s' b.1 p'

        abbrev Done : Hinted → Type 0
        Done s = s.pending ≡ []

        hint_round-Done :
            (n : ℕ) (pending : List (ℕ × ℕ)) (s : Hinted)
            → s.pending ≡ pending
            → PendingBelow n pending
            → ((m : ℕ) (s' : Hinted)
                → n ≡ suc m
                → Below m s'
                → Ensures Never Done (apply_all dies definition_of type_of hint_of taker f n s'))
            → Ensures Never Done (
                hint_round dies definition_of type_of hint_of taker f
                  (apply_all dies definition_of type_of hint_of taker f n)
                  pending
                  s)
        unfolding hint_round
        hint_round-Done n [] s e b next = returns e
        hint_round-Done zero ((t, hint) ∷ rest) s e b next = absurd (omega (arith, b.0))
        hint_round-Done (suc n) ((t, hint) ∷ rest) s e b next =
            Ensures-bind (apply_each-Below n ((t, hint) ∷ rest) (record s { pending = [] }) b tt)
              λ s' p. next n s' refl p

        apply_all-Done :
            (n : ℕ) (s : Hinted)
            → Below n s
            → Ensures Never Done (apply_all dies definition_of type_of hint_of taker f (suc n) s)
        unfolding apply_all
        apply_all-Done zero s b =
            hint_round-Done zero s.pending s refl b (λ m s' e p. absurd (omega (arith, e)))
        apply_all-Done (suc n) s b = hint_round-Done (suc n) s.pending s refl b λ m s' e p.
            apply_all-Done n s' (subst (λ k. PendingBelow k s'.pending) (omega (arith, e)) p)

        -- If each hint for the type of a field has a smaller rank than the hint that it is in, and no chain of
        -- typedefs returns to where it was, the loop that applies the hints ends with fuel for the chains and
        -- more rounds than the ranks of the hints at its start, and no hint is left to apply.
        pub apply_all-ok :
            (n : ℕ) (s : Hinted)
            → PendingBelow n s.pending
            → (s' : Hinted) × (apply_all dies definition_of type_of hint_of taker f (suc n) s
                ≡ ok s')
              × (s'.pending ≡ [])
        apply_all-ok n s b = Ensures-Never (apply_all-Done n s b)
