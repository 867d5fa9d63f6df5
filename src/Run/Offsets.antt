-- ===== src/Run/Offsets.antt =====
-- The check of offsets on a class that was generated from the members of a structure.
use ctypegen.Base.{
  ℕ, List, [], ◌∷◌, ◌++◌, map, true, Option, none, some, ◌≡◌, refl, sym, subst, length, ◌⊎◌, inl,
  inr, ◌↔◌, Bool-cases, append_assoc, if◌then◌else◌, arith,
}
use ctypegen.Dwarf.{ok}
use ctypegen.Names.{as_python_text}
use ctypegen.Layout.Bits.{Pad}
use ctypegen.Layout.Members.{Member}
use ctypegen.Layout.Fields.{
  Entry, prepad, bitfield, plain, trailing_pad, Reason, start, Layout, Input, location, add_members,
}
use ctypegen.Layout.Offsets.{
  Slot, padding, unknown, Last, slot, is_recorded, member_slots, offsets, last_offset,
}
use ctypegen.Layout.Table.{AllReal, Own, Shaped, no_members, one_member, add_members-Shaped}
use ctypegen.Run.{Field, Classes, check_offsets}
use ctypegen.Run.Passing.{Agrees, AllAgree, compare_offsets_iff}

-- A field with the name of the entry; those that only pad may have any.
abbrev pub IsNamed : Entry → Field → Type 0
IsNamed (plain name ct) x = x.name ≡ name
IsNamed (bitfield name ct width) x = x.name ≡ name
IsNamed (prepad name ct pad) x = Unit
IsNamed (trailing_pad n) x = Unit

-- The fields start with one for each entry.
abbrev pub Presents : List Entry → List Field → Type 0
Presents [] xs = Unit
Presents (e ∷ es) [] = ⊥
Presents (e ∷ es) (x ∷ xs) = IsNamed e x × Presents es xs

-- The fields behind those that pad.
abbrev pub behind : List Pad → List Field → List Field
behind [] xs = xs
behind (p ∷ ps) [] = []
behind (p ∷ ps) (x ∷ xs) = behind ps xs

-- A property of the first field and of the others; there is one.
abbrev pub OnFirst : (Field → List Field → Type 0) → List Field → Type 0
OnFirst P [] = ⊥
OnFirst P (x ∷ xs) = P x xs

-- Padding is not compared.
behind-AllAgree :
    (ps : List Pad) (xs : List Field) (rest : List Slot)
    → AllAgree xs (map (λ _. padding) ps ++ rest) ↔ AllAgree (behind ps xs) rest
behind-AllAgree [] xs rest = (λ h. h, λ h. h)
behind-AllAgree (p ∷ ps) [] [] = (λ h. h, λ h. h)
behind-AllAgree (p ∷ ps) [] (s ∷ rest) = (λ h. h, λ h. h)
behind-AllAgree (p ∷ ps) (x ∷ xs) rest =
    let (f, g) = behind-AllAgree ps xs rest in (λ h. f h.1, λ h. (tt, g h))

behind-Presents :
    (ps : List Pad) (pre es : List Entry) (xs : List Field)
    → length pre ≡ length ps
    → Presents (pre ++ es) xs
    → Presents es (behind ps xs)
behind-Presents [] [] es xs e h = h
behind-Presents [] (q ∷ pre) es xs e h = cc
behind-Presents (p ∷ ps) [] es xs e h = cc
behind-Presents (p ∷ ps) (q ∷ pre) es [] e h = absurd h
behind-Presents (p ∷ ps) (q ∷ pre) es (x ∷ xs) e h =
    behind-Presents ps pre es xs (omega (arith, e)) h.1

module _ (i : Input) where
  -- The field of a member has its name, in a bitfield an identifier for it, and lies where the entry of the
  -- member says, if the table records that.
  abbrev pub IsPlacedAs : Member → Last → Field → Type 0
  IsPlacedAs m before x =
      ((x.name ≡ m.name) ⊎ (x.name ≡ as_python_text i.iskeyword m.name))
      × ((o : ℕ) → is_recorded i m before ≡ true → location i m ≡ some o → x.offset ≡ o)

  -- Each member has such a field, behind those that pad.
  abbrev pub AllPlacedAs : List Member → List (List Pad) → Last → List Field → Type 0
  AllPlacedAs [] pads before xs = Unit
  AllPlacedAs (m ∷ ms) [] before xs = ⊥
  AllPlacedAs (m ∷ ms) (ps ∷ pads) before xs =
      OnFirst (λ x rest. IsPlacedAs m before x × AllPlacedAs ms pads (last_offset i m before) rest)
        (behind ps xs)

  Own-IsNamed :
      (m : Member) (own : Entry) (x : Field)
      → Own i m own
      → IsNamed own x
      → (x.name ≡ m.name) ⊎ (x.name ≡ as_python_text i.iskeyword m.name)
  Own-IsNamed m (plain name ct) x o h = inl cc
  Own-IsNamed m (bitfield name ct width) x o h = inr cc
  Own-IsNamed m (prepad name ct pad) x o h = absurd o
  Own-IsNamed m (trailing_pad n) x o h = absurd o

  -- The entry of a member in the table.
  Agrees-is_recorded :
      (m : Member) (before : Last) (x : Field)
      → Agrees x (if is_recorded i m before then slot (location i m) else unknown)
        ↔ ((o : ℕ) → is_recorded i m before ≡ true → location i m ≡ some o → x.offset ≡ o)
  Agrees-is_recorded m before x = elim (Bool-cases (is_recorded i m before)) [
    | inl b ↦ rw b (by_location (location i m))
    | inr b ↦ rw b (λ _ o e f. cc, λ _. tt)
  ]
    where
      by_location :
          (l : Option ℕ) → Agrees x (slot l) ↔ ((o : ℕ) → true ≡ true → l ≡ some o → x.offset ≡ o)
      by_location none = (λ _ o e f. cc, λ _. tt)
      by_location (some a) = (λ h o e f. cc, λ h. h a refl refl)

  -- The first field and its slot, with what holds of the others.
  first_iff :
      (m : Member) (before : Last) (own : Entry) (es : List Entry) (ys : List Field)
      (slots : List Slot) (Q : List Field → Type 0)
      → Own i m own
      → Presents (own ∷ es) ys
      → ((zs : List Field) → Presents es zs → AllAgree zs slots ↔ Q zs)
      → AllAgree ys ((if is_recorded i m before then slot (location i m) else unknown) ∷ slots)
        ↔ OnFirst (λ x rest. IsPlacedAs m before x × Q rest) ys
  first_iff m before own es [] slots Q o h k = absurd h
  first_iff m before own es (y ∷ ys) slots Q o h k =
      let (to, from) = Agrees-is_recorded m before y in
      let (to_rest, from_rest) = k ys h.1 in
      (λ a. ((Own-IsNamed m own y o h.0, to a.0), to_rest a.1), λ b. (from b.0.1, from_rest b.1))

  AllAgree-offsets :
      {ms : List Member} {pads : List (List Pad)} {es : List Entry} (before : Last)
      (xs : List Field)
      → Shaped i ms pads es
      → Presents es xs
      → AllAgree xs (offsets i ms pads before) ↔ AllPlacedAs ms pads before xs
  unfolding offsets member_slots
  AllAgree-offsets before [] no_members h = (λ _. tt, λ _. tt)
  AllAgree-offsets before (x ∷ xs) no_members h = (λ _. tt, λ _. tt)
  AllAgree-offsets before xs (one_member m ps pre own {ms} {pss} {es} k o shaped) h =
      let own_slot = (if is_recorded i m before then slot (location i m) else unknown) in
      let rest = offsets i ms pss (last_offset i m before) in
      let (pass, back) = behind-AllAgree ps xs (own_slot ∷ rest) in
      let (to, from) =
        first_iff m before own es (behind ps xs) rest (AllPlacedAs ms pss (last_offset i m before))
          o (behind-Presents ps pre (own ∷ es) xs k h)
          (λ zs p. AllAgree-offsets (last_offset i m before) zs shaped p) in
      let e = append_assoc (map (λ (_ : Pad). padding) ps) (own_slot ∷ []) rest in
      (λ a. to (pass (subst (AllAgree xs) e a)), λ b. subst (AllAgree xs) (sym e) (back (from b)))

  -- If no member of a structure is an empty base class and its entries are generated, then the check of offsets
  -- of a class with the generated table, whose fields start with one for each entry, under the names of the
  -- entries, finds nothing exactly if each member has its own field behind the padding in front of it, of
  -- its name, or for a bitfield its identifier, which ctypes places at the location that the debug
  -- information gives for the member, if it gives one, it is not the last one that was recorded, and the
  -- type of the member is not overridden.
  pub check_offsets-AllPlacedAs_iff :
      (ms : List Member) (packed : Option Reason) (l : Layout) (c : Classes) (t : ℕ)
      (xs : List Field)
      → AllReal i ms
      → add_members i ms (start i packed) ≡ ok l
      → (c t).fields ≡ some xs
      → (c t).offsets ≡ some (offsets i ms l.pads Last.start)
      → Presents l.entries xs
      → (check_offsets c t ≡ []) ↔ AllPlacedAs ms l.pads Last.start xs
  unfolding check_offsets
  check_offsets-AllPlacedAs_iff ms packed l c t xs r e f g p =
      let (found, all) =
        compare_offsets_iff c t (some xs) (some (offsets i ms l.pads Last.start)) in
      let (to, from) = AllAgree-offsets Last.start xs (add_members-Shaped i ms packed l r e) p in
      rw (f, g) (λ n. to (found n), λ a. all (from a))
