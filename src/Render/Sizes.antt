-- ===== src/Render/Sizes.antt =====
-- CTypeGen/__init__.py: `size` of the classes of types against `die_size`, which reads a size from the entries.
use ctypegen.Base.{
  ℕ, zero, suc, ◌<◌, List, [], ◌∷◌, Bool, true, false, Option, none, some, ◌≡◌, ◌≢◌, ◌⊎◌, ap, subst,
  refl, arith, inl, inr,
}
use ctypegen.Dwarf.{Tag, Dwarf, Error, Result, ok, out_of_fuel, is_array, is_pointer}
use ctypegen.Dwarf.Chains.{IsRanked}
use ctypegen.Dwarf.Ensures.{Ensures, returns, raises, Ensures-bind, Ensures-map, Ensures-if}
use ctypegen.Dwarf.Shape.{die_size, sized, product, get_array_dimensions}
use ctypegen.Examine.Find.{
  Kind, typedef_kind, pointer_kind, function_kind, struct_kind, union_kind, primitive_kind,
  array_kind, const_kind, enum_kind, volatile_kind, function_def_kind, restrict_kind, type_from_tag,
}
use ctypegen.Render.{Context, base_of, on_base, times, array_size, size_of, size}

-- The classes whose `size` is that of the base type.
abbrev pub is_alias : Kind → Bool
is_alias typedef_kind = true
is_alias const_kind = true
is_alias volatile_kind = true
is_alias restrict_kind = true
is_alias _ = false

-- The class of a type object is that of the tag of its entry.
abbrev pub HasClass : Context → ℕ → Type 0
HasClass x h = type_from_tag (x.dies (x.object h).definition).tag ≡ some (x.object h).kind

-- Each entry is its own definition, and the entries that others have as their type have a class.
abbrev pub IsDirect : Context → Type 0
IsDirect x =
    ((h : ℕ) → (x.object h).definition ≡ h) × ((h b : ℕ) → (x.dies h).type ≡ some b → HasClass x b)

-- Typedefs, qualifiers and arrays have no size of their own.
abbrev pub IsUnsized : Context → Type 0
IsUnsized x =
    (h : ℕ)
    → (is_alias (x.object h).kind ≡ true) ⊎ ((x.object h).kind ≡ array_kind)
    → (x.dies (x.object h).definition).byte_size ≡ none

alias-shape :
    (t : Tag) (k : Kind)
    → type_from_tag t ≡ some k
    → is_alias k ≡ true
    → (is_pointer t ≡ false) × (is_array t ≡ false)
unfolding type_from_tag
alias-shape t k e a = ground arith

array-shape :
    (t : Tag) {k : Kind}
    → type_from_tag t ≡ some k
    → k ≡ array_kind
    → (is_pointer t ≡ false) × (is_array t ≡ true)
unfolding type_from_tag
array-shape t e a = ground arith

-- The call on a base type: it ends, and a size that it gives is that of `die_size`.
abbrev Fine : Error → Type 0
Fine e = e ≢ out_of_fuel

times-none :
    {P : ℕ → Type 0} (dims : List ℕ)
    → Ensures Fine (λ s. (n : ℕ) → s ≡ some n → P n) (times none dims)
unfolding times
times-none [] = returns λ n e. cc
times-none (d ∷ dims) = raises (λ e. cc)

module _ (d : Dwarf) (pointer_size : ℕ) where
  abbrev Agrees : ℕ → Option ℕ → Option ℕ → Type 0
  Agrees f h s = (n : ℕ) → s ≡ some n → die_size d pointer_size f h ≡ ok n

  own-Agrees : (f h : ℕ) → Agrees (suc f) (some h) (d h).byte_size
  unfolding die_size
  own-Agrees f h n e = ground arith

  alias-Agrees :
      (f h : ℕ) (s : Option ℕ)
      → (d h).byte_size ≡ none
      → is_pointer (d h).tag ≡ false
      → is_array (d h).tag ≡ false
      → Agrees f (d h).type s
      → Agrees (suc f) (some h) s
  unfolding die_size sized
  alias-Agrees f h s u p a g n e = ground (arith, g n e)

  times-Agrees :
      (f h : ℕ) (s : Option ℕ)
      → (d h).byte_size ≡ none
      → is_pointer (d h).tag ≡ false
      → is_array (d h).tag ≡ true
      → Agrees f (d h).type s
      → Ensures Fine (Agrees (suc f) (some h)) (times s (get_array_dimensions d h))
  unfolding die_size sized product times
  times-Agrees f h (some m) u p a g = returns λ n e. ground (arith, g m refl)
  times-Agrees f h none u p a g = times-none (get_array_dimensions d h)

module _ (x : Context) (rank : ℕ → ℕ) (direct : IsDirect x) (unsized : IsUnsized x)
    (ranked : IsRanked x.dies rank) where
  on_base-Agrees :
      (f : ℕ) (t : Option ℕ)
      → ((b : ℕ) → t ≡ some b → Ensures Fine (Agrees x.dies x.pointer_size f (some b)) (size x f b))
      → Ensures Fine (Agrees x.dies x.pointer_size f t) (on_base x (size x f) t)
  unfolding on_base
  on_base-Agrees f none k = raises (λ e. cc)
  on_base-Agrees f (some b) k = k b refl

  abbrev Agree : ℕ → ℕ → Result (Option ℕ) → Type 0
  Agree f h r = Ensures Fine (Agrees x.dies x.pointer_size f (some h)) r

  on_base-alias :
      (f h : ℕ)
      → HasClass x h
      → is_alias (x.object h).kind ≡ true
      → Ensures Fine
          (Agrees x.dies x.pointer_size f (base_of x h))
          (on_base x (size x f) (base_of x h))
      → Agree (suc f) (x.object h).definition (on_base x (size x f) (base_of x h))
  on_base-alias f h c a g =
      let (p, b) = alias-shape _ _ c a in
      Ensures-map g (λ s e. alias-Agrees x.dies x.pointer_size f _ s (unsized h (inl a)) p b e)

  array_size-Agree :
      (f h : ℕ)
      → HasClass x h
      → (x.object h).kind ≡ array_kind
      → Ensures Fine
          (Agrees x.dies x.pointer_size f (base_of x h))
          (on_base x (size x f) (base_of x h))
      → Agree (suc f) (x.object h).definition (array_size x (size x f) h)
  unfolding array_size
  array_size-Agree f h c a g =
      let (p, b) = array-shape (x.dies (x.object h).definition).tag c a in
      Ensures-bind g (λ s e. times-Agrees x.dies x.pointer_size f _ s (unsized h (inr a)) p b e)

  size_of-own :
      (f h : ℕ)
      → Agree (suc f) (x.object h).definition (ok (x.dies (x.object h).definition).byte_size)
  size_of-own f h = returns (own-Agrees x.dies x.pointer_size f (x.object h).definition)

  size_of-Agree :
      (f h : ℕ) (k : Kind)
      → HasClass x h
      → (x.object h).kind ≡ k
      → Ensures Fine
          (Agrees x.dies x.pointer_size f (base_of x h))
          (on_base x (size x f) (base_of x h))
      → Agree (suc f) (x.object h).definition (size_of x (size x f) h k)
  unfolding size_of
  size_of-Agree f h typedef_kind c e g = on_base-alias f h c (ap is_alias e) g
  size_of-Agree f h const_kind c e g = on_base-alias f h c (ap is_alias e) g
  size_of-Agree f h volatile_kind c e g = on_base-alias f h c (ap is_alias e) g
  size_of-Agree f h restrict_kind c e g = on_base-alias f h c (ap is_alias e) g
  size_of-Agree f h array_kind c e g = array_size-Agree f h c e g
  size_of-Agree f h function_kind c e g = raises (λ q. cc)
  size_of-Agree f h function_def_kind c e g = raises (λ q. cc)
  size_of-Agree f h pointer_kind c e g = size_of-own f h
  size_of-Agree f h struct_kind c e g = size_of-own f h
  size_of-Agree f h union_kind c e g = size_of-own f h
  size_of-Agree f h primitive_kind c e g = size_of-own f h
  size_of-Agree f h enum_kind c e g = size_of-own f h

  -- When no chain of types returns to where it was, each entry is its own definition, the type objects of
  -- an entry and of those that others have as their type have the class of their tag, and typedefs,
  -- qualifiers and arrays have no size of their own, `size` ends with fuel for the chain, and a size that it
  -- returns is that which `die_size` reads from the entries.
  pub size-Agrees :
      (f h : ℕ)
      → HasClass x h
      → rank h < f
      → Ensures
          (λ e. e ≢ out_of_fuel)
          (λ s. (n : ℕ) → s ≡ some n → die_size x.dies x.pointer_size f (some h) ≡ ok n)
          (size x f h)
  unfolding size
  size-Agrees zero h c s = absurd (omega arith)
  size-Agrees (suc f) h c s =
      let q : (x.object h).definition ≡ h = direct.0 h in
      subst (λ i. Ensures Fine (Agrees x.dies x.pointer_size (suc f) (some i)) (size x (suc f) h)) q
        (Ensures-if (x.object h).is_external (λ b. size_of-own f h)
          (λ b. size_of-Agree f h (x.object h).kind c refl (
            on_base-Agrees f (base_of x h) (λ b e.
              size-Agrees f b (direct.1 (x.object h).definition b e)
                (omega (arith, ranked (x.object h).definition b e, ap rank q))))))
