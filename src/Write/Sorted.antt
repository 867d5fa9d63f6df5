-- ===== src/Write/Sorted.antt =====
-- Sorted lists of texts: the order of python's strings, `sorted` and sets of names.
use ctypegen.Base.{
  List, [], ◌∷◌, Bool, true, false, ◌||◌, Text, text_eq, text_eq_sound, text_mem, all, ◌≡◌, refl,
  arith, Bool-cases, inl, inr, ◌∙◌, ap,
}
use ctypegen.Write.{text_lt, insert, sorted}
use ctypegen.Write.Library.{distinct_names}

text_lt_trans : (r s t : Text) → text_lt r s ≡ true → text_lt s t ≡ true → text_lt r t ≡ true
unfolding text_lt
text_lt_trans r [] t h k = cc
text_lt_trans r (b ∷ s) [] h k = cc
text_lt_trans [] (b ∷ s) (c ∷ t) h k = refl
text_lt_trans (a ∷ r) (b ∷ s) (c ∷ t) h k = ground (arith, text_lt_trans r s t)

text_lt_total : (s t : Text) → text_lt s t ≡ false → text_eq t s ≡ false → text_lt t s ≡ true
unfolding text_lt text_eq
text_lt_total [] [] h e = cc
text_lt_total (a ∷ s) [] h e = refl
text_lt_total [] (b ∷ t) h e = cc
text_lt_total (a ∷ s) (b ∷ t) h e = ground (arith, text_lt_total s t)

-- Each name comes before all those behind it.
abbrev pub IsAscending : List Text → Type 0
IsAscending [] = Unit
IsAscending (s ∷ ss) = (all (text_lt s) ss ≡ true) × IsAscending ss

all-insert :
    (p : Text → Bool) (s : Text) (ss : List Text)
    → p s ≡ true
    → all p ss ≡ true
    → all p (insert text_lt s ss) ≡ true
unfolding insert
all-insert p s [] h k = ground arith
all-insert p s (t ∷ ss) h k = elim (Bool-cases (text_lt t s)) [
  | inl e ↦ rw e (ground (arith, all-insert p s ss h))
  | inr e ↦ rw e (ground arith)
]

all-text_lt :
    (s t : Text) (ss : List Text)
    → text_lt s t ≡ true
    → all (text_lt t) ss ≡ true
    → all (text_lt s) ss ≡ true
all-text_lt s t [] h k = refl
all-text_lt s t (u ∷ ss) h k = ground (arith, all-text_lt s t ss h, text_lt_trans s t u h)

insert-IsAscending :
    (s : Text) (ss : List Text)
    → text_mem s ss ≡ false
    → IsAscending ss
    → IsAscending (insert text_lt s ss)
unfolding insert text_mem
insert-IsAscending s [] m a = (refl, tt)
insert-IsAscending s (t ∷ ss) m (b, a) = elim (Bool-cases (text_lt t s)) [
  | inl e ↦ rw e (all-insert (text_lt t) s ss e b, insert-IsAscending s ss (ground arith) a)
  | inr e ↦
      (let lt : text_lt s t ≡ true = text_lt_total t s e (ground arith) in
        rw e (ground (arith, lt, all-text_lt s t ss lt b), (b, a)))
]

text_mem-insert :
    (t s : Text) (ss : List Text) → text_mem t (insert text_lt s ss) ≡ text_mem t (s ∷ ss)
unfolding insert text_mem
text_mem-insert t s [] = refl
text_mem-insert t s (u ∷ ss) = elim (Bool-cases (text_lt u s)) [
  | inl e ↦ rw e (ground (arith, text_mem-insert t s ss))
  | inr e ↦ rw e refl
]

pub text_mem-sorted : (t : Text) (ss : List Text) → text_mem t (sorted text_lt ss) ≡ text_mem t ss
unfolding sorted text_mem
text_mem-sorted t [] = refl
text_mem-sorted t (s ∷ ss) =
    text_mem-insert t s (sorted text_lt ss) ∙ ap (λ b. text_eq t s || b) (text_mem-sorted t ss)

text_mem_again :
    (t s : Text) (ss : List Text) → text_mem s ss ≡ true → text_mem t ss ≡ text_mem t (s ∷ ss)
unfolding text_mem
text_mem_again t s ss h = elim (Bool-cases (text_eq t s)) [
  | inl e ↦ (let same = text_eq_sound t s e in rw e (rw same h))
  | inr e ↦ rw e refl
]

pub text_mem-distinct_names :
    (t : Text) (ns : List Text) → text_mem t (distinct_names ns) ≡ text_mem t ns
unfolding distinct_names text_mem
text_mem-distinct_names t [] = refl
text_mem-distinct_names t (n ∷ ns) = elim (Bool-cases (text_mem n ns)) [
  | inl e ↦ rw e (text_mem-distinct_names t ns ∙ text_mem_again t n ns e)
  | inr e ↦ rw e (ap (λ b. text_eq t n || b) (text_mem-distinct_names t ns))
]

pub sorted-IsAscending : (ns : List Text) → IsAscending (sorted text_lt (distinct_names ns))
unfolding sorted distinct_names
sorted-IsAscending [] = tt
sorted-IsAscending (n ∷ ns) = elim (Bool-cases (text_mem n ns)) [
  | inl e ↦ rw e (sorted-IsAscending ns)
  | inr e ↦ rw e (
      insert-IsAscending n (sorted text_lt (distinct_names ns))
        (text_mem-sorted n (distinct_names ns) ∙ (text_mem-distinct_names n ns ∙ e))
        (sorted-IsAscending ns))
]
