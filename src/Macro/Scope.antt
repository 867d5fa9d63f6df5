-- ===== src/Macro/Scope.antt =====
-- What holds of the macro callback at every point of a run.
use ctypegen.Base.{
  ℕ, ◌+◌, List, [], ◌∷◌, ◌++◌, Bool, true, false, ◌||◌, not, Option, none, some, Text, text_eq,
  text_mem, text_eq_sound, text_eq_refl, if◌then◌else◌, ◌==◌, all, ◌≡◌, refl, arith, Bool-cases,
  inl, inr,
}
use ctypegen.Macro.Callback.{
  Macro, Callback, Step, done, raised, Split, Tools, Arguments, names, syntax_error, no_statement,
  no_names, split_definition, emit, add, add_new, define, start_file, leave, end_file, Event,
  defined_macro, undefined_macro, file_started, file_ended, hear,
}

-- A property of the state that a call leaves, if it returns.
abbrev pub Leaves : (Callback → Type 0) → Step → Type 0
Leaves P (done s) = P s
Leaves P (raised e) = Unit

abbrev pub count_interested : (Text → Bool) → List Text → ℕ
count_interested interested [] = 0
count_interested interested (f ∷ fs) =
    (if interested f then 1 else 0) + count_interested interested fs

-- No two macros of the list have one name.
abbrev pub Distinct : List Macro → Type 0
Distinct [] = Unit
Distinct (m ∷ ms) = (all (λ n. not (text_eq m.name n.name)) ms ≡ true) × Distinct ms

abbrev pub all_known : List Text → List Macro → Bool
all_known known ms = all (λ m. text_mem m.name known) ms

-- The counter counts the open files of interest, and each macro is written once and is known.
pub record IsValid (interested : Text → Bool) (s : Callback) : Type 0 where
  pub counted : s.defining ≡ count_interested interested s.filescope
  pub known : all_known s.defined s.output ≡ true
  pub unique : Distinct s.output

pub all-append :
    {A : Type 0} (p : A → Bool) (xs : List A) (y : A)
    → all p xs ≡ true
    → p y ≡ true
    → all p (xs ++ y ∷ []) ≡ true
all-append p [] y h k = ground arith
all-append p (x ∷ xs) y h k = ground (arith, all-append p xs y)

Distinct-append :
    (ms : List Macro) (n : Macro)
    → Distinct ms
    → all (λ m. not (text_eq m.name n.name)) ms ≡ true
    → Distinct (ms ++ n ∷ [])
Distinct-append [] n h k = (refl, tt)
Distinct-append (m ∷ ms) n h k =
    (all-append _ ms n h.0 (ground arith), Distinct-append ms n h.1 (ground arith))

text_mem_ne :
    (s t : Text) (known : List Text)
    → text_mem s known ≡ true
    → text_mem t known ≡ false
    → text_eq s t ≡ false
text_mem_ne s t known h k = elim (Bool-cases (text_eq s t)) [
  | inl same ↦ let e : s ≡ t = text_eq_sound s t same in cc
  | inr other ↦ other
]

all_known-fresh :
    (name : Text) (known : List Text) (ms : List Macro)
    → all_known known ms ≡ true
    → text_mem name known ≡ false
    → all (λ m. not (text_eq m.name name)) ms ≡ true
all_known-fresh name known [] h k = refl
all_known-fresh name known (m ∷ ms) h k =
    ground (arith, text_mem_ne m.name name known, all_known-fresh name known ms)

all_known-cons :
    (name : Text) (known : List Text) (ms : List Macro)
    → all_known known ms ≡ true
    → all_known (name ∷ known) ms ≡ true
unfolding text_mem
all_known-cons name known [] h = refl
all_known-cons name known (m ∷ ms) h = ground (arith, all_known-cons name known ms)

text_mem_first : (name : Text) (known : List Text) → text_mem name (name ∷ known) ≡ true
unfolding text_mem
text_mem_first name known = ground (arith, text_eq_refl name)

module _ (tools : Tools) where
  abbrev Keeps : Step → Type 0
  Keeps = Leaves (IsValid tools.interested)

  emit-IsValid :
      (m : Split) (line : ℕ) (value : Text) (files : List Text) (s : Callback)
      → IsValid tools.interested s
      → text_mem m.name s.defined ≡ false
      → Keeps (emit tools m line value files s)
  unfolding emit
  emit-IsValid m line value [] s v new = tt
  emit-IsValid m line value (file ∷ files) s v new = record {
    counted = v.counted;
    known =
        all-append _ s.output _ (all_known-cons m.name s.defined s.output v.known)
          (text_mem_first m.name s.defined);
    unique =
        Distinct-append s.output _ v.unique (all_known-fresh m.name s.defined s.output v.known new);
  }

  add-IsValid :
      (m : Split) (line : ℕ) (value : Option Text) (s : Callback)
      → IsValid tools.interested s
      → text_mem m.name s.defined ≡ false
      → Keeps (add tools m line value s)
  unfolding add
  add-IsValid m line none s v new = v
  add-IsValid m line (some value) s v new = emit-IsValid m line value s.filescope s v new

  Keeps-if :
      (b : Bool) (x : Step) (s : Callback)
      → IsValid tools.interested s
      → (b ≡ false → Keeps x)
      → Keeps (if b then done s else x)
  Keeps-if true x s v h = v
  Keeps-if false x s v h = h refl

  add_new-IsValid :
      (m : Split) (line : ℕ) (args : Arguments) (s : Callback)
      → IsValid tools.interested s
      → Keeps (add_new tools m line args s)
  unfolding add_new
  add_new-IsValid m line no_statement s v = tt
  add_new-IsValid m line no_names s v = tt
  add_new-IsValid m line syntax_error s v = v
  add_new-IsValid m line (names args) s v =
      Keeps-if (text_mem m.name s.defined || tools.existing m.name) _ s v
        λ new. add-IsValid m line _ s v (ground arith)

  pub define-IsValid :
      (line : ℕ) (text : Text) (s : Callback)
      → IsValid tools.interested s
      → Keeps (define tools line text s)
  unfolding define
  define-IsValid line text s v =
      Keeps-if (s.defining == 0) _ s v λ on. add_new-IsValid (split_definition text) line _ s v

  start_file-IsValid :
      (file : Text) (s : Callback) → IsValid tools.interested s → Keeps (start_file tools file s)
  unfolding start_file
  start_file-IsValid file s v = record {
    counted = let e = v.counted in ground arith;
    known = v.known;
    unique = v.unique;
  }

  leave-IsValid :
      (files : List Text) (s : Callback)
      → s.filescope ≡ files
      → IsValid tools.interested s
      → Keeps (leave tools files s)
  unfolding leave
  leave-IsValid [] s e v = tt
  leave-IsValid (file ∷ files) s e v = record {
    counted =
        let c : s.defining ≡ count_interested tools.interested (file ∷ files) = rw (v.counted, e) in
        ground arith;
    known = v.known;
    unique = v.unique;
  }

  pub hear-IsValid :
      (e : Event) (s : Callback) → IsValid tools.interested s → Keeps (hear tools e s)
  unfolding hear end_file
  hear-IsValid (defined_macro line text) s v = define-IsValid line text s v
  hear-IsValid undefined_macro s v = v
  hear-IsValid (file_started file) s v = start_file-IsValid file s v
  hear-IsValid file_ended s v = leave-IsValid s.filescope s refl v
