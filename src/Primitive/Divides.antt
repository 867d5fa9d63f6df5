-- ===== src/Primitive/Divides.antt =====
-- The alignments that the tables give.
use ctypegen.Base.{
  ℕ, zero, suc, ◌<◌, ◌%◌, List, [], ◌∷◌, Bool, true, false, ◌&&◌, ◌||◌, Option, none, some, Text,
  lookup, text_eq, ◌==◌, ==_iff, subst, ◌≡◌, refl, arith, all, inl, inr, Bool-cases, Option-cases,
}
use ctypegen.Primitive.{
  Encoding, encoding_number, Choice, align, Row, encodings, base_types, Entry, Alignment, aligned,
  no_python_ctype, attribute_error, out_of_fuel, find_row, chosen, row_alignment, from_entry,
  alignment_from_encoding, named, named_alignment, base_type_alignment,
}

-- 1, 2, 4, 8 or 16.
abbrev pub is_alignment : ℕ → Bool
is_alignment a = (a == 1) || ((a == 2) || ((a == 4) || ((a == 8) || (a == 16))))

abbrev fits : ℕ → Option ℕ → Bool
fits size none = true
fits size (some a) = is_alignment a && (size % a == 0)

abbrev row_fits : Row → Bool
row_fits r = fits r.size r.alignment.narrow && fits r.size r.alignment.wide

encodings_fit : all row_fits encodings ≡ true
encodings_fit = refl

abbrev is_choice : Option ℕ → Bool
is_choice none = true
is_choice (some a) = is_alignment a

abbrev name_fits : Text × (Text × Choice) → Bool
name_fits (name, (ctype, c)) = is_choice c.narrow && is_choice c.wide

base_types_fit : all name_fits base_types ≡ true
base_types_fit = refl

-- An alignment is one of the numbers above, and divides the size.
abbrev Fits : ℕ → Alignment → Type 0
Fits size (aligned a) = (is_alignment a ≡ true) × (size % a ≡ 0)
Fits size out_of_fuel = ⊥
Fits size _ = Unit

chosen-Fits : (size : ℕ) (a : Option ℕ) → fits size a ≡ true → Fits size (chosen a)
unfolding chosen
chosen-Fits size none h = tt
chosen-Fits size (some a) h = (ground arith, (==_iff (size % a) 0).0 (ground arith))

row_alignment-Fits :
    (is_narrow : Bool) (r : Row)
    → row_fits r ≡ true
    → Fits r.size (row_alignment is_narrow (some r))
unfolding row_alignment align
row_alignment-Fits true r h = chosen-Fits r.size r.alignment.narrow (ground arith)
row_alignment-Fits false r h = chosen-Fits r.size r.alignment.wide (ground arith)

find_row-Fits :
    (is_narrow : Bool) (e : Encoding) (size : ℕ) (rows : List Row)
    → all row_fits rows ≡ true
    → Fits size (row_alignment is_narrow (find_row e (some size) rows))
unfolding find_row row_alignment
find_row-Fits is_narrow e size [] h = tt
find_row-Fits is_narrow e size (r ∷ rows) h =
    elim (Bool-cases ((encoding_number r.encoding == encoding_number e) && (r.size == size))) [
      | inl b ↦
          let same : r.size ≡ size = (==_iff r.size size).0 (ground arith) in
          rw b (
            subst (λ n. Fits n (row_alignment is_narrow (some r))) same
              (row_alignment-Fits is_narrow r (ground arith)))
      | inr b ↦ rw b (find_row-Fits is_narrow e size rows (ground arith))
    ]

-- The size of the first entry with an encoding, along the chain of types.
pub data Encoded (d : ℕ → Entry) : ℕ → Option ℕ → Type 0 where
  here : {h : ℕ} {e : Encoding} → (d h).encoding ≡ some e → Encoded d h (d h).byte_size
  further :
      {h k : ℕ} {size : Option ℕ}
      → (d h).encoding ≡ none
      → (d h).type ≡ some k
      → Encoded d k size
      → Encoded d h size

-- The alignment is a number above that divides the size of the entry that has the encoding; or there
-- is no python ctype, or no such entry.
abbrev pub IsFitting : (ℕ → Entry) → ℕ → Alignment → Type 0
IsFitting d h (aligned a) =
    (is_alignment a ≡ true) × ((size : ℕ) × Encoded d h (some size) × (size % a ≡ 0))
IsFitting d h no_python_ctype = Unit
IsFitting d h attribute_error = Unit
IsFitting d h out_of_fuel = ⊥

-- Every type of an entry has a smaller rank.
abbrev pub IsRanked : (ℕ → Entry) → (ℕ → ℕ) → Type 0
IsRanked d rank = (h k : ℕ) → (d h).type ≡ some k → rank k < rank h

Fits-IsFitting :
    (d : ℕ → Entry) (h size : ℕ) (a : Alignment)
    → Encoded d h (some size)
    → Fits size a
    → IsFitting d h a
Fits-IsFitting d h size (aligned a) c (one, divides) = (one, (size, c, divides))
Fits-IsFitting d h size no_python_ctype c f = tt
Fits-IsFitting d h size attribute_error c f = tt
Fits-IsFitting d h size out_of_fuel c f = f

sized-IsFitting :
    (d : ℕ → Entry) (is_narrow : Bool) (h : ℕ) (e : Encoding) (size : Option ℕ)
    → Encoded d h size
    → IsFitting d h (row_alignment is_narrow (find_row e size encodings))
unfolding find_row row_alignment
sized-IsFitting d is_narrow h e none c = tt
sized-IsFitting d is_narrow h e (some size) c =
    Fits-IsFitting d h size _ c (find_row-Fits is_narrow e size encodings encodings_fit)

further-IsFitting :
    (d : ℕ → Entry) (h k : ℕ) (a : Alignment)
    → (d h).encoding ≡ none
    → (d h).type ≡ some k
    → IsFitting d k a
    → IsFitting d h a
further-IsFitting d h k (aligned a) e t (one, (size, c, divides)) =
    (one, (size, further e t c, divides))
further-IsFitting d h k no_python_ctype e t f = tt
further-IsFitting d h k attribute_error e t f = tt
further-IsFitting d h k out_of_fuel e t f = f

-- With fuel for the chain of types alignmentFromEncoding ends. An alignment that it returns is 1, 2,
-- 4, 8 or 16 and divides the size of the first entry of the chain that has an encoding.
pub alignment_from_encoding-IsFitting :
    (d : ℕ → Entry) (rank : ℕ → ℕ) (is_narrow : Bool) (f h : ℕ)
    → IsRanked d rank
    → suc (rank h) < f
    → IsFitting d h (alignment_from_encoding d is_narrow f (some h))
unfolding alignment_from_encoding from_entry
alignment_from_encoding-IsFitting d rank is_narrow zero h ranked s = absurd (omega arith)
alignment_from_encoding-IsFitting d rank is_narrow (suc zero) h ranked s = absurd (omega arith)
alignment_from_encoding-IsFitting d rank is_narrow (suc (suc f)) h ranked s =
    elim (Option-cases (d h).encoding) [
      | inr (e, q) ↦ rw q (sized-IsFitting d is_narrow h e (d h).byte_size (here q))
      | inl q ↦ rw q (elim (Option-cases (d h).type) [
        | inl t ↦ rw t tt
        | inr (k, t) ↦
            let below : rank k < rank h = ranked h k t in
            rw t (
              further-IsFitting d h k _ q t
                (alignment_from_encoding-IsFitting d rank is_narrow (suc f) k ranked (omega arith)))
      ])
    ]

-- What baseTypeAlignment may answer.
abbrev pub IsBounded : Alignment → Type 0
IsBounded (aligned a) = is_alignment a ≡ true
IsBounded no_python_ctype = Unit
IsBounded attribute_error = Unit
IsBounded out_of_fuel = ⊥

IsFitting-IsBounded : (d : ℕ → Entry) (h : ℕ) (a : Alignment) → IsFitting d h a → IsBounded a
IsFitting-IsBounded d h (aligned a) f = f.0
IsFitting-IsBounded d h no_python_ctype f = tt
IsFitting-IsBounded d h attribute_error f = tt
IsFitting-IsBounded d h out_of_fuel f = f

chosen-IsBounded : (a : Option ℕ) → is_choice a ≡ true → IsBounded (chosen a)
unfolding chosen
chosen-IsBounded none h = tt
chosen-IsBounded (some a) h = h

name_fits-IsBounded :
    (is_narrow : Bool) (ctype : Text) (c : Choice)
    → name_fits ([], (ctype, c)) ≡ true
    → IsBounded (chosen (align is_narrow c))
unfolding align
name_fits-IsBounded true ctype c h = chosen-IsBounded c.narrow (ground arith)
name_fits-IsBounded false ctype c h = chosen-IsBounded c.wide (ground arith)

lookup-IsBounded :
    (is_narrow : Bool) (found : Alignment) (name : Text) (table : List (Text × (Text × Choice)))
    → all name_fits table ≡ true
    → IsBounded found
    → IsBounded (named_alignment is_narrow found (lookup name table))
unfolding lookup named_alignment
lookup-IsBounded is_narrow found name [] h b = b
lookup-IsBounded is_narrow found name ((key, (ctype, c)) ∷ table) h b =
    elim (Bool-cases (text_eq key name)) [
      | inl same ↦ rw same (name_fits-IsBounded is_narrow ctype c (ground arith))
      | inr different ↦ rw different (lookup-IsBounded is_narrow found name table (ground arith) b)
    ]

named-IsBounded :
    (is_narrow : Bool) (found : Alignment) (name : Option Text)
    → IsBounded found
    → IsBounded (named_alignment is_narrow found (named name))
unfolding named named_alignment
named-IsBounded is_narrow found none b = b
named-IsBounded is_narrow found (some name) b =
    lookup-IsBounded is_narrow found name base_types base_types_fit b

-- With fuel for the chain of types baseTypeAlignment ends, and an alignment that it returns is 1, 2,
-- 4, 8 or 16.
pub base_type_alignment-IsBounded :
    (d : ℕ → Entry) (rank : ℕ → ℕ) (is_narrow : Bool) (f h : ℕ)
    → IsRanked d rank
    → suc (rank h) < f
    → IsBounded (base_type_alignment d is_narrow f h)
unfolding base_type_alignment
base_type_alignment-IsBounded d rank is_narrow f h ranked s =
    named-IsBounded is_narrow _ (d h).name (
      IsFitting-IsBounded d h (alignment_from_encoding d is_narrow f (some h))
        (alignment_from_encoding-IsFitting d rank is_narrow f h ranked s))
