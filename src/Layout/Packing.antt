-- ===== src/Layout/Packing.antt =====
-- When a type is not packed: its members and its size are aligned.
use ctypegen.Base.{ℕ, ◌%◌, ◌≤◌, List, [], ◌∷◌, true, Option, none, some, ◌≡◌, ◌⊎◌}
use ctypegen.Dwarf.{ok}
use ctypegen.Dwarf.Ensures.{Ensures}
use ctypegen.Layout.Members.{Member, is_empty_base}
use ctypegen.Layout.Fields.{CType, Layout, Input, location, field_type}

-- An offset is a multiple of an alignment, where there are both.
abbrev pub IsMultiple : Option ℕ → ℕ → Type 0
IsMultiple none a = Unit
IsMultiple (some o) a = (a ≡ 0) ⊎ (o % a ≡ 0)

abbrev SamePacking : Layout → Layout → Type 0
SamePacking l l' = (l'.alignment ≡ l.alignment) × (l'.packed ≡ l.packed)

module _ (i : Input) where
  -- The member is an empty base, or its alignment divides its offset and is at most `bound`.
  abbrev pub IsAligned : ℕ → Member → List Member → Type 0
  IsAligned bound m rest =
      (a : ℕ) (ct : CType)
      → field_type i m rest ≡ ok (a, ct)
      → (a ≤ bound) × IsMultiple (location i m) a

  abbrev pub IsEmpty : Member → Type 0
  IsEmpty m = is_empty_base i.dwarf (λ t. (i.type_of t).class) i.fuel m.die ≡ ok true

  abbrev pub AllAligned : ℕ → List Member → Type 0
  AllAligned bound [] = Unit
  AllAligned bound (m ∷ ms) = (IsEmpty m ⊎ IsAligned bound m ms) × AllAligned bound ms

  -- What a step leaves behind, from `l` to `l'`.
  abbrev Keeps : (ℕ → Type 0) → Layout → Layout → Type 0
  Keeps P l l' =
      (l.alignment ≤ l'.alignment) × (l'.packed ≡ none → (l.packed ≡ none) × P l'.alignment)
