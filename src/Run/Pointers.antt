-- ===== src/Run/Pointers.antt =====
-- `hasPointers` and its memo: what it answers, whatever earlier calls have left in the memo.
use ctypegen.Base.{
  ℕ, zero, suc, ◌<◌, List, [], ◌∷◌, Bool, true, false, none, some, ◌≡◌, arith, Option-cases,
  Bool-cases, inl, inr, ◌⊎◌, ◌==◌, ==_iff, subst,
}
use ctypegen.Dwarf.{Result, ok}
use ctypegen.Dwarf.Ensures.{
  Never, Ensures-Never, Ensures, returns, Ensures-bind, Ensures-if, Ensures-map,
}
use ctypegen.Run.{Field, Classes, Memo, recall, any_pointers, inspect, has_pointers}

-- A class is a pointer, or has a field whose type is one or has one.
mutual
  pub data HasPointer (c : Classes) : ℕ → Type 0 where
    pointer : {t : ℕ} → (c t).is_pointer ≡ true → HasPointer c t
    field : {t : ℕ} {xs : List Field} → (c t).fields ≡ some xs → AnyField c xs → HasPointer c t

  pub data AnyField (c : Classes) : List Field → Type 0 where
    first : {x : Field} {xs : List Field} → HasPointer c x.type → AnyField c (x ∷ xs)
    later : {x : Field} {xs : List Field} → AnyField c xs → AnyField c (x ∷ xs)

-- What an answer of true or false says.
abbrev pub Answers {ℓ} : Type ℓ → Bool → Type ℓ
Answers P true = P
Answers P false = ¬ P

-- Every answer in the memo is right.
abbrev pub IsSound : Classes → Memo → Type 0
IsSound c memo = (t : ℕ) (b : Bool) → recall t memo ≡ some b → Answers (HasPointer c t) b

abbrev pub AllBelow : (ℕ → ℕ) → ℕ → List Field → Type 0
AllBelow rank n [] = Unit
AllBelow rank n (x ∷ xs) = (rank x.type < n) × AllBelow rank n xs

-- The types of the fields of a class rank below it.
abbrev pub IsNested : Classes → (ℕ → ℕ) → Type 0
IsNested c rank = (t : ℕ) (xs : List Field) → (c t).fields ≡ some xs → AllBelow rank (rank t) xs

IsSound-cons :
    (c : Classes) (t : ℕ) (rv : Bool) (memo : Memo)
    → Answers (HasPointer c t) rv
    → IsSound c memo
    → IsSound c ((t, rv) ∷ memo)
unfolding recall
IsSound-cons c t rv memo a sound s b e = elim (Bool-cases (t == s)) [
  | inl same ↦
      let t≡s : t ≡ s = (==_iff t s).0 same in
      let rv≡b : rv ≡ b = ground arith in
      subst (λ k. Answers (HasPointer c k) b) t≡s (rw (← rv≡b) a)
  | inr other ↦ sound s b (rw other at e)
]

module _ (c : Classes) where
  none-nil : ¬ AnyField c []
  none-nil a = elim a [ ]

  AnyField-cases :
      {x : Field} {xs : List Field} → AnyField c (x ∷ xs) → HasPointer c x.type ⊎ AnyField c xs
  AnyField-cases (first h) = inl h
  AnyField-cases (later m) = inr m

  Answers-later :
      (x : Field) (xs : List Field) (b : Bool)
      → ¬ HasPointer c x.type
      → Answers (AnyField c xs) b
      → Answers (AnyField c (x ∷ xs)) b
  Answers-later x xs true n a = later a
  Answers-later x xs false n a = λ m. elim (AnyField-cases m) [ inl h ↦ n h | inr r ↦ a r ]

  -- What is shown of a call for the class `t`, and of the loop over fields.
  abbrev pub Answered : ℕ → Bool × Memo → Type 0
  Answered t (b, memo) = Answers (HasPointer c t) b × IsSound c memo

  abbrev AnyAnswered : List Field → Bool × Memo → Type 0
  AnyAnswered xs (b, memo) = Answers (AnyField c xs) b × IsSound c memo

  module _ (rank : ℕ → ℕ) (f : ℕ → Memo → Result (Bool × Memo)) (n : ℕ)
      (call : (t : ℕ) (memo : Memo)
        → rank t < n
        → IsSound c memo
        → Ensures Never (Answered t) (f t memo)) where
    any_pointers-Ensures :
        (xs : List Field) (memo : Memo)
        → AllBelow rank n xs
        → IsSound c memo
        → Ensures Never (AnyAnswered xs) (any_pointers f xs memo)
    unfolding any_pointers
    any_pointers-Ensures [] memo below sound = returns (none-nil, sound)
    any_pointers-Ensures (x ∷ xs) memo below sound =
        Ensures-bind (call x.type memo below.0 sound) λ (found, memo') p.
          Ensures-if found (λ e. returns (first (rw e at (p.0)), p.1))
            (λ e.
              Ensures-map (any_pointers-Ensures xs memo' below.1 p.1)
                λ (b, memo'') q. (Answers-later x xs b (rw e at (p.0)) q.0, q.1))

  -- A class that is no pointer has one exactly if a field has one.
  HasPointer-cases :
      {t : ℕ} {xs : List Field}
      → (c t).fields ≡ some xs
      → (c t).is_pointer ≡ false
      → HasPointer c t
      → AnyField c xs
  HasPointer-cases e n (pointer p) = cc
  HasPointer-cases e n (field e' a) = subst (AnyField c) (cc) a

  no_fields : {t : ℕ} → (c t).fields ≡ none → (c t).is_pointer ≡ false → ¬ HasPointer c t
  no_fields e n (pointer p) = cc
  no_fields e n (field e' a) = cc

  Answers-fields :
      (t : ℕ) (xs : List Field) (b : Bool)
      → (c t).fields ≡ some xs
      → (c t).is_pointer ≡ false
      → Answers (AnyField c xs) b
      → Answers (HasPointer c t) b
  Answers-fields t xs true e n a = field e a
  Answers-fields t xs false e n a = λ h. a (HasPointer-cases e n h)

  module _ (rank : ℕ → ℕ) (nested : IsNested c rank) where
    inspect-Ensures :
        (f : ℕ → Memo → Result (Bool × Memo)) (t : ℕ) (memo : Memo)
        → ((s : ℕ) (m : Memo) → rank s < rank t → IsSound c m → Ensures Never (Answered s) (f s m))
        → IsSound c memo
        → Ensures Never (Answered t) (inspect c f t memo)
    unfolding inspect
    inspect-Ensures f t memo call sound =
        Ensures-if ((c t).is_pointer) (λ e. returns (pointer e, sound))
          (λ n. elim (Option-cases (c t).fields) [
            | inl e ↦ rw e (returns (no_fields e n, sound))
            | inr (xs, e) ↦ rw e (
                Ensures-map
                  (any_pointers-Ensures rank f (rank t) call xs memo (nested t xs e) sound)
                  λ (b, memo') q. (Answers-fields t xs b e n q.0, q.1))
          ])

    pub has_pointers-Ensures :
        (f t : ℕ) (memo : Memo)
        → rank t < f
        → IsSound c memo
        → Ensures Never (Answered t) (has_pointers c f t memo)
    unfolding has_pointers
    has_pointers-Ensures zero t memo h sound = absurd (omega arith)
    has_pointers-Ensures (suc f) t memo h sound = elim (Option-cases (recall t memo)) [
      | inr (b, e) ↦ rw (e, has_pointers) (returns (sound t b e, sound))
      | inl e ↦
          rw (e, has_pointers)
            (Ensures-bind
              (inspect-Ensures (has_pointers c f) t memo
                (λ s m below. has_pointers-Ensures f s m (omega arith)) sound)
              λ (rv, memo') q. returns (q.0, IsSound-cons c t rv memo' q.0 q.1))
    ]

-- `hasPointers` with fuel for the nesting of the class returns. It answers whether the class is a
-- pointer or has one among its fields at any depth, whatever right answers the memo holds before,
-- and every answer in the memo that it leaves is right.
pub has_pointers_lem :
    (c : Classes) (rank : ℕ → ℕ) (f t : ℕ) (memo : Memo)
    → IsNested c rank
    → rank t < f
    → IsSound c memo
    → (r : Bool × Memo) × (has_pointers c f t memo ≡ ok r)
      × (Answers (HasPointer c t) r.0 × IsSound c r.1)
has_pointers_lem c rank f t memo nested h sound =
    Ensures-Never (has_pointers-Ensures c rank nested f t memo h sound)
