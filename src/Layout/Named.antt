-- ===== src/Layout/Named.antt =====
-- The names in `_anonymous_` and `allow_unaligned` are those of fields.
use ctypegen.Base.{
  ℕ, List, [], ◌∷◌, ◌++◌, map, Bool, true, false, Option, none, some, Text, if◌then◌else◌, ◌≡◌,
  refl, sym, ◌∙◌, subst, append-nil, ◌⊎◌, inl, inr, Bool-cases, length, arith,
}
use ctypegen.Dwarf.{ok, number, is_union}
use ctypegen.Dwarf.Ensures.{
  AnyError, Ensures, returns, Ensures-bind, Ensures-if, Ensures-self, Ensures-ok,
}
use ctypegen.Names.{as_python_text}
use ctypegen.Hints.{Shape}
use ctypegen.Layout.Members.{Member}
use ctypegen.Layout.Fields.{
  Entry, prepad, bitfield, plain, trailing_pad, Layout, Reason, start, Input, add_members,
  add_trailing, check_size, finish_packing, define_fields,
}
use ctypegen.Layout.Table.{AllReal, Own, Shaped, no_members, one_member, add_members-Shaped}
use ctypegen.Layout.Written.{
  MemberType, ClassBody, members_where, member_lt, member_py_name, unaligned, only_some,
  anonymous_names, class_layout, class_body, define_class, requested_packing,
}
use ctypegen.Run.{Allowed, everything, only}
use ctypegen.Write.{insert, sorted}

-- A field of the name stands in `_fields_`.
abbrev pub HasField : Text → List Entry → Type 0
HasField n [] = ⊥
HasField n (plain name ct ∷ es) = (name ≡ n) ⊎ HasField n es
HasField n (bitfield name ct width ∷ es) = (name ≡ n) ⊎ HasField n es
HasField n (prepad name ct pad ∷ es) = HasField n es
HasField n (trailing_pad k ∷ es) = HasField n es

abbrev pub AllFields : List Text → List Entry → Type 0
AllFields [] es = Unit
AllFields (n ∷ ns) es = HasField n es × AllFields ns es

HasField-before : (n : Text) (es fs : List Entry) → HasField n es → HasField n (es ++ fs)
HasField-before n [] fs h = absurd h
HasField-before n (plain name ct ∷ es) fs (inl e) = inl e
HasField-before n (plain name ct ∷ es) fs (inr h) = inr (HasField-before n es fs h)
HasField-before n (bitfield name ct width ∷ es) fs (inl e) = inl e
HasField-before n (bitfield name ct width ∷ es) fs (inr h) = inr (HasField-before n es fs h)
HasField-before n (prepad name ct pad ∷ es) fs h = HasField-before n es fs h
HasField-before n (trailing_pad k ∷ es) fs h = HasField-before n es fs h

HasField-behind : (n : Text) (es fs : List Entry) → HasField n fs → HasField n (es ++ fs)
HasField-behind n [] fs h = h
HasField-behind n (plain name ct ∷ es) fs h = inr (HasField-behind n es fs h)
HasField-behind n (bitfield name ct width ∷ es) fs h = inr (HasField-behind n es fs h)
HasField-behind n (prepad name ct pad ∷ es) fs h = HasField-behind n es fs h
HasField-behind n (trailing_pad k ∷ es) fs h = HasField-behind n es fs h

-- A property of all members of a list.
abbrev pub AllMembers : (Member → Type 0) → List Member → Type 0
AllMembers P [] = Unit
AllMembers P (m ∷ ms) = P m × AllMembers P ms

AllMembers-map :
    {P Q : Member → Type 0}
    → ((m : Member) → P m → Q m)
    → (ms : List Member) → AllMembers P ms
    → AllMembers Q ms
AllMembers-map f [] h = tt
AllMembers-map f (m ∷ ms) h = (f m h.0, AllMembers-map f ms h.1)

AllMembers-members_where :
    (P : Member → Type 0) (p : Member → Bool) (ms : List Member)
    → AllMembers P ms
    → AllMembers P (members_where p ms)
unfolding members_where
AllMembers-members_where P p [] h = tt
AllMembers-members_where P p (m ∷ ms) h = elim (Bool-cases (p m)) [
  | inl e ↦ rw e (h.0, AllMembers-members_where P p ms h.1)
  | inr e ↦ rw e (AllMembers-members_where P p ms h.1)
]

AllMembers-insert :
    (P : Member → Type 0) (m : Member) (ms : List Member)
    → P m
    → AllMembers P ms
    → AllMembers P (insert member_lt m ms)
unfolding insert
AllMembers-insert P m [] p h = (p, tt)
AllMembers-insert P m (n ∷ ms) p h = elim (Bool-cases (member_lt n m)) [
  | inl e ↦ rw e (h.0, AllMembers-insert P m ms p h.1)
  | inr e ↦ rw e (p, h)
]

AllMembers-sorted :
    (P : Member → Type 0) (ms : List Member) → AllMembers P ms → AllMembers P (sorted member_lt ms)
unfolding sorted
AllMembers-sorted P [] h = tt
AllMembers-sorted P (m ∷ ms) h =
    AllMembers-insert P m (sorted member_lt ms) h.0 (AllMembers-sorted P ms h.1)

module _ (i : Input) where
  -- The name of a member is its identifier.
  abbrev pub HasOwnName : Member → Type 0
  HasOwnName m = as_python_text i.iskeyword m.name ≡ m.name

  abbrev IsField : List Entry → Member → Type 0
  IsField es m = HasField (member_py_name i m) es

  AllFields-map :
      (ms : List Member) (es : List Entry)
      → AllMembers (IsField es) ms
      → AllFields (map (member_py_name i) ms) es
  AllFields-map [] es h = tt
  AllFields-map (m ∷ ms) es h = (h.0, AllFields-map ms es h.1)

  Own-HasField :
      (m : Member) (own : Entry) (es : List Entry)
      → HasOwnName m
      → Own i m own
      → HasField (member_py_name i m) (own ∷ es)
  Own-HasField m (plain name ct) es h o = inl (o ∙ sym h)
  Own-HasField m (bitfield name ct width) es h o = inl o
  Own-HasField m (prepad name ct pad) es h o = absurd o
  Own-HasField m (trailing_pad k) es h o = absurd o

  Shaped-AllMembers :
      {ms : List Member} {pads : List (List ctypegen.Layout.Bits.Pad)} {es : List Entry}
      → AllMembers HasOwnName ms
      → Shaped i ms pads es
      → AllMembers (IsField es) ms
  Shaped-AllMembers h no_members = tt
  Shaped-AllMembers h (one_member m ps pre own {ms} {pss} {es} k o shaped) = (
    HasField-behind (member_py_name i m) pre (own ∷ es) (Own-HasField m own es h.0 o),
    AllMembers-map
        (λ n f.
          HasField-behind (member_py_name i n) pre (own ∷ es)
            (HasField-behind (member_py_name i n) (own ∷ []) es f))
        ms (Shaped-AllMembers h.1 shaped),
  )

  -- What follows the loop only adds to the entries.
  abbrev Adds : Layout → Layout → Type 0
  Adds l l' = (more : List Entry) × l'.entries ≡ l.entries ++ more

  padded-Adds :
      (b : Bool) (n : ℕ) (l : Layout)
      → Adds l (if b then record l { entries = l.entries ++ trailing_pad n ∷ [] } else l)
  padded-Adds true n l = (trailing_pad n ∷ [], refl)
  padded-Adds false n l = ([], sym (append-nil l.entries))

  add_trailing-Adds :
      (count super_count : ℕ) (l : Layout)
      → Ensures AnyError (Adds l) (add_trailing i count super_count l)
  unfolding add_trailing
  add_trailing-Adds count super_count l =
      Ensures-if (is_union (i.dwarf i.definition).tag)
        (λ u. returns ([], sym (append-nil l.entries)))
        λ u.
          Ensures-bind (Ensures-self (number (i.dwarf i.definition).byte_size))
            λ actual e. returns (padded-Adds _ _ l)

  finish-entries :
      (size : Option ℕ) (l : Layout) → (finish_packing i (check_size i size l)).entries ≡ l.entries
  unfolding finish_packing check_size
  finish-entries none l = ground arith
  finish-entries (some size) l = ground arith

  define_fields-AllMembers :
      (packed : Option Reason) (m : Member) (ms : List Member) (super_count : ℕ)
      → AllReal i (m ∷ ms)
      → AllMembers HasOwnName (m ∷ ms)
      → Ensures AnyError
          (λ l. AllMembers (IsField l.entries) (m ∷ ms))
          (define_fields i packed (m ∷ ms) super_count)
  unfolding define_fields
  define_fields-AllMembers packed m ms super_count real own =
      Ensures-bind (Ensures-self (add_members i (m ∷ ms) (start i packed))) λ l e.
        Ensures-bind (add_trailing-Adds (length (m ∷ ms)) super_count l) λ l' (more, a).
          let own_fields = Shaped-AllMembers own (add_members-Shaped i (m ∷ ms) packed l real e) in
          let written = finish-entries (i.dwarf i.definition).byte_size l' ∙ a in
          returns (
            subst (λ es. AllMembers (IsField es) (m ∷ ms)) (sym written)
              (AllMembers-map (λ n h. HasField-before (member_py_name i n) l.entries more h)
                (m ∷ ms) own_fields))

  abbrev pub entries_of : Option Layout → List Entry
  entries_of none = []
  entries_of (some l) = l.entries

  abbrev pub names_allowed : Option Allowed → List Text
  names_allowed (some (only names)) = names
  names_allowed (some everything) = []
  names_allowed none = []

  class_layout-AllMembers :
      (t : MemberType) (ms : List Member)
      → AllReal i ms
      → AllMembers HasOwnName ms
      → Ensures AnyError (λ l. AllMembers (IsField (entries_of l)) ms) (class_layout i t ms)
  unfolding class_layout
  class_layout-AllMembers t [] real own = returns tt
  class_layout-AllMembers t (m ∷ ms) real own =
      Ensures-bind
        (define_fields-AllMembers (requested_packing t.shape.packed) m ms t.shape.super_count real
          own)
        λ l h. returns h

  only_some-AllFields :
      (ns : List Text) (es : List Entry)
      → AllFields ns es
      → AllFields (names_allowed (only_some i ns)) es
  only_some-AllFields [] es h = tt
  only_some-AllFields (n ∷ ns) es h = h

  unaligned-AllFields :
      (s : Shape) (es : List Entry)
      → AllMembers (IsField es) s.members
      → AllFields (names_allowed (unaligned i s)) es
  unfolding unaligned
  unaligned-AllFields s es h = elim (Bool-cases s.unaligned_ptrs) [
    | inl e ↦ rw e tt
    | inr e ↦ rw e (
        only_some-AllFields _ es
          (AllFields-map _ es (AllMembers-members_where (IsField es) _ s.members h)))
  ]

  anonymous-AllFields :
      (t : MemberType) (es : List Entry)
      → AllMembers (IsField es) t.shape.members
      → AllFields (anonymous_names i t) es
  unfolding anonymous_names
  anonymous-AllFields t es h =
      AllFields-map _ es (
        AllMembers-sorted (IsField es) _
          (AllMembers-members_where (IsField es) _ t.shape.members h))

  -- The names that a class lists are names of its fields.
  abbrev pub ListsFields : ClassBody → Type 0
  ListsFields b =
      AllFields b.anonymous (entries_of b.layout)
      × AllFields (names_allowed b.allow_unaligned) (entries_of b.layout)

  class_body-ListsFields :
      (t : MemberType)
      → AllReal i t.shape.members
      → AllMembers HasOwnName t.shape.members
      → Ensures AnyError ListsFields (class_body i t)
  unfolding class_body
  class_body-ListsFields t real own =
      Ensures-bind (Ensures-self (number (i.dwarf i.definition).byte_size)) λ size e.
        Ensures-bind (class_layout-AllMembers t t.shape.members real own) λ l h.
          returns
            (anonymous-AllFields t (entries_of l) h, unaligned-AllFields t.shape (entries_of l) h)

  abbrev OfBody : Option ClassBody → Type 0
  OfBody none = Unit
  OfBody (some b) = ListsFields b

  define_class-Ensures :
      (t : MemberType)
      → AllReal i t.shape.members
      → AllMembers HasOwnName t.shape.members
      → Ensures AnyError OfBody (define_class i t)
  unfolding define_class
  define_class-Ensures t real own =
      Ensures-if (i.dwarf i.definition).declaration (λ d. returns tt)
        λ d. Ensures-bind (class_body-ListsFields t real own) λ b h. returns h

  -- If no member of a structure or union is an empty base class, the name of each is its own identifier, and
  -- `define` writes the class, then each name in `_anonymous_` and in `allow_unaligned` is that of a field in
  -- `_fields_`.
  pub define_class-ListsFields :
      (t : MemberType) (b : ClassBody)
      → AllReal i t.shape.members
      → AllMembers HasOwnName t.shape.members
      → define_class i t ≡ ok (some b)
      → ListsFields b
  define_class-ListsFields t b real own e = Ensures-ok (define_class-Ensures t real own) e
