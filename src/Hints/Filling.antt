-- ===== src/Hints/Filling.antt =====
-- What `applyHints` of a structure or union leaves of its members and of those of other types.
use ctypegen.Base.{
  ℕ, List, [], ◌∷◌, Bool, true, false, ◌&&◌, any, Option, none, some, Text, lookup, ◌==◌, ==_iff,
  ◌≡◌, refl, sym, ap, ◌∙◌, ◌⊎◌, Bool-cases, inl, inr, subst,
}
use ctypegen.Dwarf.{Dwarf}
use ctypegen.Hints.{
  Hint, PythonType, Shape, Hinted, Taker, member_taker, change, change_named, change_all,
  set_options, take_found, found_shape, update, hinted_shape, register_type, register, register_all,
  apply_members, apply_enum,
}
use ctypegen.Layout.Members.{Member, Found, find_members}
use ctypegen.Hints.Finding.{entries, entries_of, member_children, find_members-entries}

-- The first list, or the second if the first is empty.
abbrev pub first_of : List ℕ → List ℕ → List ℕ
first_of [] ms = ms
first_of (n ∷ ns) ms = n ∷ ns

first_of_twice : (ns ms : List ℕ) → first_of (first_of ns ms) ms ≡ first_of ns ms
first_of_twice [] [] = refl
first_of_twice [] (m ∷ ms) = refl
first_of_twice (n ∷ ns) ms = refl

take_found-entries :
    (found : Found) (ms : List Member) (s : Shape)
    → s.members ≡ ms
    → entries_of (take_found found ms s) ≡ first_of (entries_of s) (entries found.members)
unfolding take_found
take_found-entries found [] s e = rw e refl
take_found-entries found (m ∷ ms) s e = rw e refl

change_named-die : (hint : Option Hint) (m : Member) → (change_named hint m).die ≡ m.die
unfolding change_named change
change_named-die none m = refl
change_named-die (some hint) m = refl

abbrev pub takes_members : Taker → Bool
takes_members member_taker = true
takes_members _ = false

module _ (dies : Dwarf) (definition_of : ℕ → ℕ) (type_of : Option ℕ → ℕ) (hint_of : ℕ → PythonType)
    (taker : ℕ → Taker) where
  -- The members that a structure or union has, or those of its definition if it has none.
  abbrev pub expected : Hinted → ℕ → List ℕ
  expected s t =
      first_of (entries_of (s.shapes t)) (member_children dies (dies (definition_of t)).children)

  -- A hint is to be applied to the type, which is a structure or union.
  abbrev pub is_awaited : Hinted → ℕ → Bool
  is_awaited s t = takes_members (taker t) && any (λ e. e.0 == t) s.pending

  found_shape-entries :
      (t : ℕ) (s : Shape)
      → entries_of (found_shape dies definition_of type_of hint_of taker t s)
        ≡ first_of (entries_of s) (member_children dies (dies (definition_of t)).children)
  found_shape-entries t s =
      take_found-entries (find_members dies (definition_of t)) s.members s refl
      ∙ ap (first_of (entries_of s)) (find_members-entries dies (definition_of t))

  change_all-die :
      (hints : List (Text × Hint)) (ms : List Member)
      → entries (change_all dies definition_of type_of hint_of taker hints ms) ≡ entries ms
  unfolding change_all
  change_all-die hints [] = refl
  change_all-die hints (m ∷ ms) =
      rw (change_named-die (lookup m.name hints) m, change_all-die hints ms) refl

  -- Each type has the entries that it had or those expected, and the same are expected then.
  abbrev pub Keeps : Hinted → Hinted → Type 0
  Keeps s s' =
      (t : ℕ)
      → (expected s' t ≡ expected s t)
        × ((entries_of (s'.shapes t) ≡ entries_of (s.shapes t))
            ⊎ (entries_of (s'.shapes t) ≡ expected s t))

  abbrev pub IsFilled : ℕ → Hinted → Type 0
  IsFilled t s = entries_of (s.shapes t) ≡ expected s t

  pub Keeps-same : (s s' : Hinted) → s'.shapes ≡ s.shapes → Keeps s s'
  Keeps-same s s' e t = (rw e refl, inl (rw e refl))

  pub Keeps-trans : (s s' s'' : Hinted) → Keeps s s' → Keeps s' s'' → Keeps s s''
  Keeps-trans s s' s'' g h t = (
    (h t).0 ∙ (g t).0,
    elim (h t).1 [
      | inr e ↦ inr (e ∙ (g t).0)
      | inl e ↦ elim (g t).1 [ inl p ↦ inl (e ∙ p) | inr p ↦ inr (e ∙ p) ]
    ],
  )

  pub Keeps-IsFilled : (t : ℕ) (s s' : Hinted) → Keeps s s' → IsFilled t s → IsFilled t s'
  Keeps-IsFilled t s s' g f = elim (g t).1 [
    | inl e ↦ e ∙ (f ∙ sym (g t).0)
    | inr e ↦ e ∙ sym (g t).0
  ]

  register_type-shapes :
      (typename : Option ℕ) (m : Member) (s : Hinted)
      → (register_type dies definition_of type_of hint_of taker typename m s).shapes ≡ s.shapes
  unfolding register_type
  register_type-shapes none m s = refl
  register_type-shapes (some hint) m s = refl

  register-shapes :
      (hint : Option Hint) (m : Member) (s : Hinted)
      → (register dies definition_of type_of hint_of taker hint m s).shapes ≡ s.shapes
  unfolding register
  register-shapes none m s = refl
  register-shapes (some h) m s = register_type-shapes h.typename m s

  register_all-shapes :
      (hints : List (Text × Hint)) (ms : List Member) (s : Hinted)
      → (register_all dies definition_of type_of hint_of taker hints ms s).shapes ≡ s.shapes
  unfolding register_all
  register_all-shapes hints [] s = refl
  register_all-shapes hints (m ∷ ms) s =
      register_all-shapes hints ms _ ∙ register-shapes (lookup m.name hints) m s

  -- Where the members of one type are found, nothing else changes.
  update-Keeps :
      (t : ℕ) (shape : Shape) (s s' : Hinted)
      → s'.shapes ≡ update t shape s.shapes
      → entries_of shape ≡ expected s t
      → Keeps s s' × IsFilled t s'
  update-Keeps t shape s s' e f =
      let at_t : entries_of (s'.shapes t) ≡ expected s t = rw (e, (==_iff t t).1 refl) f in
      let same : expected s' t ≡ expected s t =
        ap (λ es. first_of es (member_children dies (dies (definition_of t)).children)) at_t
        ∙ first_of_twice (entries_of (s.shapes t)) _ in
      (
        λ u. elim (Bool-cases (u == t)) [
          | inl b ↦
              (let q : t ≡ u = sym ((==_iff u t).0 b) in
                (
                  subst (λ v. expected s' v ≡ expected s v) q same,
                  inr (subst (λ v. entries_of (s'.shapes v) ≡ expected s v) q at_t),
                ))
          | inr b ↦ (rw (e, b) refl, inl (rw (e, b) refl))
        ],
        at_t ∙ sym same,
      )

  pub apply_members-Keeps :
      (t : ℕ) (spec : PythonType) (s : Hinted)
      → Keeps s (apply_members dies definition_of type_of hint_of taker t spec s)
        × IsFilled t (apply_members dies definition_of type_of hint_of taker t spec s)
  unfolding apply_members set_options
  apply_members-Keeps t spec s =
      let shape = found_shape dies definition_of type_of hint_of taker t (s.shapes t) in
      update-Keeps t (hinted_shape dies definition_of type_of hint_of taker spec shape) s
        (apply_members dies definition_of type_of hint_of taker t spec s)
        (register_all-shapes spec.field_hints shape.members _)
        (change_all-die spec.field_hints shape.members ∙ found_shape-entries t (s.shapes t))

  pub apply_enum-Keeps :
      (t : ℕ) (nameless : Option Bool) (s : Hinted)
      → Keeps s (apply_enum dies definition_of type_of hint_of taker t nameless s)
  unfolding apply_enum
  apply_enum-Keeps t none s = Keeps-same s s refl
  apply_enum-Keeps t (some b) s =
      Keeps-same s (apply_enum dies definition_of type_of hint_of taker t (some b) s) refl
