-- ===== src/Resolve/Readable.antt =====
-- What stands in the output before a statement, so that python can read the statement.
use ctypegen.Base.{
  ℕ, List, [], ◌∷◌, ◌++◌, Bool, true, false, not, ◌||◌, Option, none, some, ◌≡◌, refl, ◌⊎◌, inl,
  inr,
}
use ctypegen.Dwarf.{Error}
use ctypegen.Resolve.{
  Class, plain, function, pointer, typedef_of, array_of, modifier, member_type, enumeration,
  TypeObject, Written, class_statement, fields, enum_class, alias,
}
use ctypegen.Resolve.Needs.{Hollow}

abbrev pub In : Written → List Written → Type 0
In w [] = ⊥
In w (v ∷ vs) = (v ≡ w) ⊎ In w vs

pub In-append : (w : Written) (vs ws : List Written) → In w vs → In w (vs ++ ws)
In-append w [] ws h = absurd h
In-append w (v ∷ vs) ws (inl e) = inl e
In-append w (v ∷ vs) ws (inr h) = inr (In-append w vs ws h)

pub In-last : (w : Written) (vs : List Written) → In w (vs ++ w ∷ [])
In-last w [] = inl refl
In-last w (v ∷ vs) = inr (In-last w vs)

module _ (types : ℕ → TypeObject) where
  -- A type that is not written: one that is void, or that comes from another module.
  abbrev pub is_exempt : ℕ → Bool
  is_exempt t = not (types t).has_die || ((types t).is_foreign || (types t).is_void)

  -- The types whose ctype is complete once it can be read: the others complete those they stand for.
  abbrev pub is_closed : Class → Bool
  is_closed plain = true
  is_closed (function base params) = true
  is_closed (pointer is_voidp base) = true
  is_closed (array_of base) = true
  is_closed (enumeration base) = true
  is_closed _ = false

  module _ (out : List Written) where
    mutual
      -- Every name in the ctype of a type has been given by what is written. The ctype of an array has the
      -- size of its elements, and that of a function the types it takes and returns by value.
      pub data Readable : ℕ → Type 0 where
        exempt : {t : ℕ} → is_exempt t ≡ true → Readable t
        plain_readable : {t : ℕ} → (types t).class ≡ plain → Readable t
        stated :
            {t : ℕ} {only : Bool} {members : List ℕ} {failure : Option Error}
            → (types t).class ≡ member_type only members failure
            → In (class_statement t) out
            → Readable t
        enumerated :
            {t : ℕ} {base : Option ℕ}
            → (types t).class ≡ enumeration base
            → In (enum_class t) out
            → Readable t
        aliased :
            {t : ℕ} {same : Bool} {base : Option ℕ}
            → (types t).class ≡ typedef_of same base
            → In (alias t) out
            → Readable t
        renamed : {t b : ℕ} → (types t).class ≡ typedef_of true (some b) → Readable b → Readable t
        void_pointer : {t : ℕ} {base : Option ℕ} → (types t).class ≡ pointer true base → Readable t
        pointer_readable :
            {t : ℕ} {base : Option ℕ}
            → (types t).class ≡ pointer false base
            → BaseReadable base
            → Readable t
        array_readable :
            {t : ℕ} {base : Option ℕ}
            → (types t).class ≡ array_of base
            → BaseWhole base
            → Readable t
        modifier_readable :
            {t : ℕ} {base : Option ℕ}
            → (types t).class ≡ modifier base
            → BaseReadable base
            → Readable t
        function_readable :
            {t : ℕ} {base : Option ℕ} {params : List ℕ}
            → (types t).class ≡ function base params
            → BaseWhole base
            → AllWhole params
            → Readable t

      -- The ctype of a type can be read and has its size: the fields of every structure or union in it by
      -- value are written.
      pub data Whole : ℕ → Type 0 where
        exempt_whole : {t : ℕ} → is_exempt t ≡ true → Whole t
        closed_whole : {t : ℕ} → is_closed (types t).class ≡ true → Readable t → Whole t
        fields_whole :
            {t : ℕ} {only : Bool} {members : List ℕ} {failure : Option Error}
            → (types t).class ≡ member_type only members failure
            → In (class_statement t) out
            → In (fields t) out
            → Whole t
        typedef_whole :
            {t : ℕ} {same : Bool} {base : Option ℕ}
            → (types t).class ≡ typedef_of same base
            → Readable t
            → BaseWhole base
            → Whole t
        modifier_whole :
            {t : ℕ} {base : Option ℕ} → (types t).class ≡ modifier base → BaseWhole base → Whole t

      pub data BaseReadable : Option ℕ → Type 0 where
        no_base : BaseReadable none
        with_base : {b : ℕ} → Readable b → BaseReadable (some b)

      pub data BaseWhole : Option ℕ → Type 0 where
        no_whole : BaseWhole none
        with_whole : {b : ℕ} → Whole b → BaseWhole (some b)

      pub data AllWhole : List ℕ → Type 0 where
        no_more : AllWhole []
        one_more : {t : ℕ} {ts : List ℕ} → Whole t → AllWhole ts → AllWhole (t ∷ ts)

    mutual
      -- A type that is written whole can be read.
      pub Whole-Readable : {t : ℕ} → Whole t → Readable t
      Whole-Readable (exempt_whole e) = exempt e
      Whole-Readable (closed_whole e r) = r
      Whole-Readable (fields_whole e i j) = stated e i
      Whole-Readable (typedef_whole e r b) = r
      Whole-Readable (modifier_whole e b) = modifier_readable e (BaseWhole-BaseReadable b)

      BaseWhole-BaseReadable : {b : Option ℕ} → BaseWhole b → BaseReadable b
      BaseWhole-BaseReadable no_whole = no_base
      BaseWhole-BaseReadable (with_whole w) = with_base (Whole-Readable w)

  module _ (out more : List Written) where
    mutual
      pub Readable-append : {t : ℕ} → Readable out t → Readable (out ++ more) t
      Readable-append (exempt e) = exempt e
      Readable-append (plain_readable e) = plain_readable e
      Readable-append (stated e i) = stated e (In-append _ out more i)
      Readable-append (enumerated e i) = enumerated e (In-append _ out more i)
      Readable-append (aliased e i) = aliased e (In-append _ out more i)
      Readable-append (renamed e r) = renamed e (Readable-append r)
      Readable-append (void_pointer e) = void_pointer e
      Readable-append (pointer_readable e r) = pointer_readable e (BaseReadable-append r)
      Readable-append (array_readable e r) = array_readable e (BaseWhole-append r)
      Readable-append (modifier_readable e r) = modifier_readable e (BaseReadable-append r)
      Readable-append (function_readable e r rs) =
          function_readable e (BaseWhole-append r) (AllWhole-append rs)

      pub BaseReadable-append : {b : Option ℕ} → BaseReadable out b → BaseReadable (out ++ more) b
      BaseReadable-append no_base = no_base
      BaseReadable-append (with_base r) = with_base (Readable-append r)

      pub Whole-append : {t : ℕ} → Whole out t → Whole (out ++ more) t
      Whole-append (exempt_whole e) = exempt_whole e
      Whole-append (closed_whole e r) = closed_whole e (Readable-append r)
      Whole-append (fields_whole e i j) =
          fields_whole e (In-append _ out more i) (In-append _ out more j)
      Whole-append (typedef_whole e r b) = typedef_whole e (Readable-append r) (BaseWhole-append b)
      Whole-append (modifier_whole e b) = modifier_whole e (BaseWhole-append b)

      pub BaseWhole-append : {b : Option ℕ} → BaseWhole out b → BaseWhole (out ++ more) b
      BaseWhole-append no_whole = no_whole
      BaseWhole-append (with_whole r) = with_whole (Whole-append r)

      pub AllWhole-append : {ts : List ℕ} → AllWhole out ts → AllWhole (out ++ more) ts
      AllWhole-append no_more = no_more
      AllWhole-append (one_more r rs) = one_more (Whole-append r) (AllWhole-append rs)

  -- The members of a structure or union: whole, with the fields of members by value, or of a type that is
  -- written as characters, since only a declaration of it was found.
  abbrev pub MembersWhole : List Written → List ℕ → Type 0
  MembersWhole out [] = Unit
  MembersWhole out (m ∷ ms) = (Whole out m ⊎ Hollow types m) × MembersWhole out ms

  -- What a statement uses, by the class of its type.
  abbrev pub FieldsSupported : List Written → ℕ → Class → Type 0
  FieldsSupported before t (member_type false members failure) =
      In (class_statement t) before × MembersWhole before members
  FieldsSupported before t _ = ⊥

  abbrev pub AliasSupported : List Written → Class → Type 0
  AliasSupported before (typedef_of same (some b)) = Readable before b
  AliasSupported before _ = ⊥

  abbrev pub EnumSupported : List Written → Class → Type 0
  EnumSupported before (enumeration b) = BaseWhole before b
  EnumSupported before _ = ⊥

  abbrev pub Supported : List Written → Written → Type 0
  Supported before (class_statement t) = Unit
  Supported before (fields t) = FieldsSupported before t (types t).class
  Supported before (alias t) = AliasSupported before (types t).class
  Supported before (enum_class t) = EnumSupported before (types t).class

  -- Each statement is supported by those before it.
  abbrev pub IsOrdered : List Written → Type 0
  IsOrdered out =
      (before : List Written) (w : Written) (after : List Written)
      → out ≡ before ++ w ∷ after
      → Supported before w
