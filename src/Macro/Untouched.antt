-- ===== src/Macro/Untouched.antt =====
-- No macro takes a name that was known before the run.
use ctypegen.Base.{
  ℕ, List, [], ◌∷◌, Bool, true, false, ◌||◌, not, Option, none, some, Text, text_mem, if◌then◌else◌,
  ◌==◌, all, ◌≡◌, refl, arith, Bool-cases, inl, inr,
}
use ctypegen.Macro.Callback.{
  Macro, Callback, Step, done, raised, Split, Tools, Arguments, names, syntax_error, no_statement,
  no_names, split_definition, emit, add, add_new, define, start_file, leave, end_file, Event,
  defined_macro, undefined_macro, file_started, file_ended, hear, and_then, listen, fresh,
}
use ctypegen.Macro.Scope.{Leaves, all-append}

-- None of the macros has one of the names.
abbrev pub is_untouched : List Text → List Macro → Bool
is_untouched known ms = all (λ m. not (text_mem m.name known)) ms

module _ (tools : Tools) (known : List Text) where
  -- The names are known still, and no macro has one of them.
  abbrev Untouched : Callback → Type 0
  Untouched s =
      ((n : Text) → text_mem n known ≡ true → text_mem n s.defined ≡ true)
      × (is_untouched known s.output ≡ true)

  abbrev Keeps : Step → Type 0
  Keeps = Leaves Untouched

  -- What is not known now was not known before.
  new_before :
      (n : Text) (defined : List Text)
      → (text_mem n known ≡ true → text_mem n defined ≡ true)
      → text_mem n defined ≡ false
      → text_mem n known ≡ false
  new_before n defined h e = elim (Bool-cases (text_mem n known)) [
    | inl k ↦ (let d = h k in cc)
    | inr k ↦ k
  ]

  emit-Untouched :
      (m : Split) (line : ℕ) (value : Text) (files : List Text) (s : Callback)
      → Untouched s
      → text_mem m.name s.defined ≡ false
      → Keeps (emit tools m line value files s)
  unfolding emit text_mem
  emit-Untouched m line value [] s u new = tt
  emit-Untouched m line value (file ∷ files) s (k, o) new =
      let unknown = new_before m.name s.defined (k m.name) new in
      (λ n h. ground (arith, k n h), all-append _ s.output _ o (ground arith))

  add-Untouched :
      (m : Split) (line : ℕ) (value : Option Text) (s : Callback)
      → Untouched s
      → text_mem m.name s.defined ≡ false
      → Keeps (add tools m line value s)
  unfolding add
  add-Untouched m line none s u new = u
  add-Untouched m line (some value) s u new = emit-Untouched m line value s.filescope s u new

  Keeps-if :
      (b : Bool) (x : Step) (s : Callback)
      → Untouched s
      → (b ≡ false → Keeps x)
      → Keeps (if b then done s else x)
  Keeps-if true x s u h = u
  Keeps-if false x s u h = h refl

  add_new-Untouched :
      (m : Split) (line : ℕ) (args : Arguments) (s : Callback)
      → Untouched s
      → Keeps (add_new tools m line args s)
  unfolding add_new
  add_new-Untouched m line no_statement s u = tt
  add_new-Untouched m line no_names s u = tt
  add_new-Untouched m line syntax_error s u = u
  add_new-Untouched m line (names args) s u =
      Keeps-if (text_mem m.name s.defined || tools.existing m.name) _ s u
        λ new. add-Untouched m line _ s u (ground arith)

  leave-Untouched : (files : List Text) (s : Callback) → Untouched s → Keeps (leave tools files s)
  unfolding leave
  leave-Untouched [] s u = tt
  leave-Untouched (file ∷ files) s u = u

  hear-Untouched : (e : Event) (s : Callback) → Untouched s → Keeps (hear tools e s)
  unfolding hear end_file define start_file
  hear-Untouched (defined_macro line text) s u =
      Keeps-if (s.defining == 0) _ s u λ on. add_new-Untouched (split_definition text) line _ s u
  hear-Untouched undefined_macro s u = u
  hear-Untouched (file_started file) s u = u
  hear-Untouched file_ended s u = leave-Untouched s.filescope s u

  Keeps-and_then :
      (r : Step) (f : Callback → Step)
      → Keeps r
      → ((s : Callback) → Untouched s → Keeps (f s))
      → Keeps (and_then r f)
  unfolding and_then
  Keeps-and_then (done s) f k h = h s k
  Keeps-and_then (raised e) f k h = tt

  listen-Untouched : (es : List Event) (s : Callback) → Untouched s → Keeps (listen tools es s)
  unfolding listen
  listen-Untouched [] s u = u
  listen-Untouched (e ∷ es) s u =
      Keeps-and_then (hear tools e s) _ (hear-Untouched e s u) λ s' u'. listen-Untouched es s' u'

  -- A run from the empty scope.
  pub fresh-Untouched :
      (es : List Event)
      → Leaves (λ s. is_untouched known s.output ≡ true) (listen tools es (fresh known))
  fresh-Untouched es =
      only_output (listen tools es (fresh known))
        (listen-Untouched es (fresh known) (λ n h. h, refl))
    where
      only_output : (r : Step) → Keeps r → Leaves (λ s. is_untouched known s.output ≡ true) r
      only_output (done s) u = u.1
      only_output (raised e) u = tt
