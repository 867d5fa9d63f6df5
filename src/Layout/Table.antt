-- ===== src/Layout/Table.antt =====
-- The table `_ctypegen_offsets` against `_fields_`: entries that stand for one another.
use ctypegen.Base.{
  ℕ, suc, ◌+◌, ◌*◌, List, [], ◌∷◌, ◌++◌, map, length, length-append, false, Option, none, some, ltb,
  ◌==◌, ◌%◌, subst, is_some, ◌≡◌, refl, sym, ap, ◌∙◌, append_assoc, append-nil, arith,
}
use ctypegen.Dwarf.{ok, number}
use ctypegen.Dwarf.Shape.{die_bit_offset}
use ctypegen.Names.{as_python_text}
use ctypegen.Dwarf.Ensures.{
  AnyError, Ensures, returns, raises, Ensures-bind, Ensures-map, Ensures-if, Ensures-self,
  Ensures-ok,
}
use ctypegen.Layout.Bits.{Pad, place_bits}
use ctypegen.Layout.Members.{Member, is_empty_base}
use ctypegen.Layout.Fields.{
  CType, Entry, Reason, start, Layout, Input, raise_alignment, behind_field, bits_size, field_type,
  prepad, bitfield, plain, trailing_pad, add_bits, add_plain, add_entries, add_member, visit,
  add_members,
}
use ctypegen.Layout.Offsets.{Slot, Last, member_slots, offsets, last_offset}

length-map : {A B : Type 0} (f : A → B) (xs : List A) → length (map f xs) ≡ length xs
length-map f [] = refl
length-map f (x ∷ xs) = ap suc (length-map f xs)

-- One entry for each member and each of its pads.
abbrev pub count : List (List Pad) → ℕ
count [] = 0
count (ps ∷ pss) = suc (length ps) + count pss

module _ (i : Input) where
  length-member_slots :
      (m : Member) (ps : List Pad) (before : Last)
      → length (member_slots i m ps before) ≡ suc (length ps)
  unfolding member_slots
  length-member_slots m ps before = omega (
    arith,
    length-append (map (λ (_ : Pad). Slot.padding) ps) _,
    length-map (λ (_ : Pad). Slot.padding) ps,
  )

  length-offsets :
      (ms : List Member) (pads : List (List Pad)) (before : Last)
      → length pads ≡ length ms
      → length (offsets i ms pads before) ≡ count pads
  unfolding offsets
  length-offsets [] [] before e = refl
  length-offsets [] (p ∷ pads) before e = cc
  length-offsets (m ∷ ms) [] before e = cc
  length-offsets (m ∷ ms) (ps ∷ pads) before e = omega (
    arith,
    length-append (member_slots i m ps before) (offsets i ms pads (last_offset i m before)),
    length-member_slots m ps before,
    length-offsets ms pads (last_offset i m before) (omega (arith, e)),
  )

  -- The entry that carries the name of a member; a bitfield has an identifier for it.
  abbrev pub Own : Member → Entry → Type 0
  Own m (plain name ct) = name ≡ m.name
  Own m (bitfield name ct width) = name ≡ as_python_text i.iskeyword m.name
  Own m (prepad name ct pad) = ⊥
  Own m (trailing_pad n) = ⊥

  -- The entries of a member: as many as its pads, and its own.
  abbrev EntriesOf : Member → List Pad → List Entry → Type 0
  EntriesOf m ps es =
      (pre : List Entry) × (own : Entry) × (es ≡ pre ++ own ∷ [])
      × ((length pre ≡ length ps) × Own m own)

  -- The entries of one more member, behind those of a layout.
  abbrev Adds : Member → Layout → Layout → Type 0
  Adds m l l' =
      (ps : List Pad) × (es : List Entry) × (l'.pads ≡ l.pads ++ ps ∷ [])
      × ((l'.entries ≡ l.entries ++ es) × EntriesOf m ps es)

  add_plain-Adds :
      (m : Member) (ct : CType) (l : Layout) → Ensures AnyError (Adds m l) (add_plain i m ct l)
  unfolding add_plain
  add_plain-Adds m ct l = Ensures-bind (Ensures-self (behind_field i m l.cursor)) λ c e.
      returns ([], plain m.name ct ∷ [], refl, (refl, ([], plain m.name ct, refl, (refl, refl))))

  add_bits-Adds :
      (m : Member) (ct : CType) (off : ℕ) (l : Layout)
      → Ensures AnyError (Adds m l) (add_bits i m ct off l)
  unfolding add_bits
  add_bits-Adds m ct off l =
      Ensures-bind (Ensures-self (number (i.dwarf m.die).bit_size)) λ width e.
        Ensures-bind (Ensures-self (bits_size i m off l)) λ size e'.
          Ensures-bind (Ensures-self (place_bits width (size * 8) off l.cursor))
            λ (pads, cursor) e''.
              let name = as_python_text i.iskeyword m.name in
              returns (
                pads,
                map (prepad name ct) pads ++ bitfield name ct width ∷ [],
                refl,
                (
                  refl,
                  (
                    map (prepad name ct) pads,
                    bitfield name ct width,
                    refl,
                    (length-map (prepad name ct) pads, refl),
                  ),
                ),
              )

  add_entries-Adds :
      (m : Member) (ct : CType) (off : Option ℕ) (l : Layout)
      → Ensures AnyError (Adds m l) (add_entries i m ct off l)
  unfolding add_entries
  add_entries-Adds m ct none l = add_plain-Adds m ct l
  add_entries-Adds m ct (some off) l =
      Ensures-if (is_some m.override) (λ b. add_plain-Adds m ct l) (λ b. add_bits-Adds m ct off l)

  raise_alignment-same :
      (a : ℕ) (l : Layout)
      → Ensures AnyError (λ l'. (l'.pads ≡ l.pads) × (l'.entries ≡ l.entries)) (raise_alignment a l)
  unfolding raise_alignment
  raise_alignment-same a l =
      Ensures-if (ltb l.alignment a)
        (λ b. Ensures-if (a % l.alignment == 0) (λ c. returns (refl, refl)) (λ c. raises tt))
        (λ b. returns (refl, refl))

  add_member-Adds :
      (m : Member) (rest : List Member) (l : Layout)
      → Ensures AnyError (Adds m l) (add_member i m rest l)
  unfolding add_member
  add_member-Adds m rest l = Ensures-bind (Ensures-self (field_type i m rest)) λ (a, ct) e.
      Ensures-bind (raise_alignment-same a l) λ l₁ (p, q).
        Ensures-bind (Ensures-self (die_bit_offset i.dwarf i.pointer_size i.fuel m.die)) λ off e'.
          Ensures-bind (add_entries-Adds m ct off l₁) λ l₂ (ps, es, r, (n, of)).
            returns (
              ps,
              es,
              r ∙ ap (λ pads. pads ++ ps ∷ []) p,
              (n ∙ ap (λ entries. entries ++ es) q, of),
            )

  -- No member is an empty base class.
  abbrev pub AllReal : List Member → Type 0
  AllReal [] = Unit
  AllReal (m ∷ ms) =
      (is_empty_base i.dwarf (λ t. (i.type_of t).class) i.fuel m.die ≡ ok false) × AllReal ms

  visit-Adds :
      (m : Member) (rest : List Member) (l : Layout)
      → is_empty_base i.dwarf (λ t. (i.type_of t).class) i.fuel m.die ≡ ok false
      → Ensures AnyError (Adds m l) (visit i m rest l)
  unfolding visit
  visit-Adds m rest l e = rw e (add_member-Adds m rest l)

  -- The entries of several members.
  pub data Shaped : List Member → List (List Pad) → List Entry → Type 0 where
    no_members : Shaped [] [] []
    one_member :
        (m : Member) (ps : List Pad) (pre : List Entry) (own : Entry) {ms : List Member}
        {pss : List (List Pad)} {es : List Entry}
        → length pre ≡ length ps
        → Own m own
        → Shaped ms pss es
        → Shaped (m ∷ ms) (ps ∷ pss) (pre ++ own ∷ es)

  abbrev AddsAll : List Member → Layout → Layout → Type 0
  AddsAll ms l l' =
      (pss : List (List Pad)) × (es : List Entry) × (l'.pads ≡ l.pads ++ pss)
      × ((l'.entries ≡ l.entries ++ es) × Shaped ms pss es)

  AddsAll-trans :
      (m : Member) (ms : List Member) (l l₁ l₂ : Layout)
      → Adds m l l₁
      → AddsAll ms l₁ l₂
      → AddsAll (m ∷ ms) l l₂
  AddsAll-trans m ms l l₁ l₂ (ps, es, p, (e, (pre, own, g, (k, o)))) (pss, fs, q, (f, shaped)) = (
    ps ∷ pss,
    pre ++ own ∷ fs,
    q ∙ (ap (λ pads. pads ++ pss) p ∙ append_assoc l.pads (ps ∷ []) pss),
    (
      f
          ∙ (ap (λ entries. entries ++ fs) (e ∙ ap (λ x. l.entries ++ x) g)
              ∙ (append_assoc l.entries (pre ++ own ∷ []) fs
                  ∙ ap (λ x. l.entries ++ x) (append_assoc pre (own ∷ []) fs))),
      one_member m ps pre own k o shaped,
    ),
  )

  add_members-AddsAll :
      (ms : List Member) (l : Layout)
      → AllReal ms
      → Ensures AnyError (AddsAll ms l) (add_members i ms l)
  unfolding add_members
  add_members-AddsAll [] l r =
      returns ([], [], sym (append-nil l.pads), (sym (append-nil l.entries), no_members))
  add_members-AddsAll (m ∷ rest) l r =
      Ensures-bind (visit-Adds m rest l r.0) λ l₁ a.
        Ensures-map (add_members-AddsAll rest l₁ r.1) λ l₂ b. AddsAll-trans m rest l l₁ l₂ a b

  -- If no member is an empty base class, the entries are those of the members in their order.
  pub add_members-Shaped :
      (ms : List Member) (packed : Option Reason) (l : Layout)
      → AllReal ms
      → add_members i ms (start i packed) ≡ ok l
      → Shaped ms l.pads l.entries
  add_members-Shaped ms packed l r e =
      let (pss, es, p, (q, shaped)) = Ensures-ok (add_members-AddsAll ms (start i packed) r) e in
      subst (λ pads. Shaped ms pads l.entries) (sym p) (subst (Shaped ms pss) (sym q) shaped)

  Shaped-lengths :
      {ms : List Member} {pss : List (List Pad)} {es : List Entry}
      → Shaped ms pss es
      → (length pss ≡ length ms) × (length es ≡ count pss)
  Shaped-lengths no_members = (refl, refl)
  Shaped-lengths (one_member m ps pre own {es} k o shaped) =
      let (p, q) = Shaped-lengths shaped in (ap suc p, omega (arith, length-append pre (own ∷ es)))

  -- If no member is an empty base class and the entries of the members are generated, the table of offsets has
  -- one entry for each of them.
  pub length-offsets-add_members :
      (ms : List Member) (packed : Option Reason) (l : Layout)
      → AllReal ms
      → add_members i ms (start i packed) ≡ ok l
      → length (offsets i ms l.pads Last.start) ≡ length l.entries
  length-offsets-add_members ms packed l r e =
      let (p, q) = Shaped-lengths (add_members-Shaped ms packed l r e) in
      length-offsets ms l.pads Last.start p ∙ sym q
