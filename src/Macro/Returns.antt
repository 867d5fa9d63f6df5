-- ===== src/Macro/Returns.antt =====
-- When a run of the macro callback returns: files are closed only when they are open, and the
-- arguments of each macro can be read.
use ctypegen.Base.{
  ℕ, zero, suc, List, [], ◌∷◌, Bool, true, false, ◌||◌, ◌&&◌, Option, none, some, Text, text_mem,
  if◌then◌else◌, ◌==◌, ◌≡◌, refl, arith, length,
}
use ctypegen.Macro.Callback.{
  Callback, Step, done, raised, Arguments, names, syntax_error, no_statement, no_names, Split,
  Tools, split_definition, args_of, value_of, emit, add, add_new, define, start_file, leave,
  end_file, Event, defined_macro, undefined_macro, file_started, file_ended, hear, and_then, listen,
  fresh,
}
use ctypegen.Macro.Scope.{IsValid, count_interested, Leaves, hear-IsValid}

-- Arguments that the callback can read: those for which nothing is raised, where a SyntaxError is caught.
abbrev pub is_readable : Arguments → Bool
is_readable (names ns) = true
is_readable syntax_error = true
is_readable no_statement = false
is_readable no_names = false

-- The events never close a file that is not open, `depth` being the number of the open ones, and the arguments
-- of each definition can be read.
abbrev pub nested : Tools → ℕ → List Event → Bool
nested tools depth [] = true
nested tools depth (defined_macro line text ∷ es) =
    is_readable (args_of tools (split_definition text).args) && nested tools depth es
nested tools depth (undefined_macro ∷ es) = nested tools depth es
nested tools depth (file_started file ∷ es) = nested tools (suc depth) es
nested tools zero (file_ended ∷ es) = false
nested tools (suc depth) (file_ended ∷ es) = nested tools depth es

-- The call returns, and leaves a state with the property.
abbrev pub Returns : (Callback → Type 0) → Step → Type 0
Returns P (done s) = P s
Returns P (raised e) = ⊥

module _ (tools : Tools) where
  abbrev Stays : List Text → Step → Type 0
  Stays files = Returns (λ s. s.filescope ≡ files)

  emit-Stays :
      (m : Split) (line : ℕ) (value : Text) (files : List Text) (s : Callback)
      → (s.defining ≡ 0 → ⊥)
      → s.filescope ≡ files
      → s.defining ≡ count_interested tools.interested files
      → Stays files (emit tools m line value files s)
  unfolding emit
  emit-Stays m line value [] s on e c = on c
  emit-Stays m line value (file ∷ files) s on e c = e

  add-Stays :
      (m : Split) (line : ℕ) (value : Option Text) (s : Callback)
      → (s.defining ≡ 0 → ⊥)
      → IsValid tools.interested s
      → Stays s.filescope (add tools m line value s)
  unfolding add
  add-Stays m line none s on v = refl
  add-Stays m line (some value) s on v = emit-Stays m line value s.filescope s on refl v.counted

  Stays-if :
      (b : Bool) (x : Step) (s : Callback)
      → (b ≡ false → Stays s.filescope x)
      → Stays s.filescope (if b then done s else x)
  Stays-if true x s h = refl
  Stays-if false x s h = h refl

  add_new-Stays :
      (m : Split) (line : ℕ) (args : Arguments) (s : Callback)
      → is_readable args ≡ true
      → (s.defining ≡ 0 → ⊥)
      → IsValid tools.interested s
      → Stays s.filescope (add_new tools m line args s)
  unfolding add_new
  add_new-Stays m line no_statement s h on v = cc
  add_new-Stays m line no_names s h on v = cc
  add_new-Stays m line syntax_error s h on v = refl
  add_new-Stays m line (names args) s h on v =
      let value = value_of tools m.name args s.defined m.value in
      Stays-if (text_mem m.name s.defined || tools.existing m.name) (add tools m line value s) s
        λ new. add-Stays m line value s on v

  define-Stays :
      (line : ℕ) (text : Text) (s : Callback)
      → is_readable (args_of tools (split_definition text).args) ≡ true
      → IsValid tools.interested s
      → Stays s.filescope (define tools line text s)
  unfolding define
  define-Stays line text s h v =
      Stays-if (s.defining == 0) _ s
        λ on. add_new-Stays (split_definition text) line _ s h (ground arith) v

  -- The two results of a call, put together.
  both :
      (P Q : Callback → Type 0) (r : Step) → Leaves P r → Returns Q r → Returns (λ s. P s × Q s) r
  both P Q (done s) p q = (p, q)
  both P Q (raised e) p q = elim q [ ]

  Returns-and_then :
      (P Q : Callback → Type 0) (r : Step) (f : Callback → Step)
      → Returns P r
      → ((s : Callback) → P s → Returns Q (f s))
      → Returns Q (and_then r f)
  unfolding and_then
  Returns-and_then P Q (done s) f p h = h s p
  Returns-and_then P Q (raised e) f p h = elim p [ ]

  -- The number of open files behind an event.
  abbrev Depth : ℕ → Callback → Type 0
  Depth depth s = IsValid tools.interested s × (length s.filescope ≡ depth)

  leave-Depth :
      (files : List Text) (s : Callback) (depth : ℕ)
      → length files ≡ suc depth
      → Returns (λ s'. length s'.filescope ≡ depth) (leave tools files s)
  unfolding leave
  leave-Depth [] s depth e = omega arith
  leave-Depth (file ∷ files) s depth e = omega arith

  deep :
      (files : List Text) (r : Step) (depth : ℕ)
      → length files ≡ depth
      → Stays files r
      → Returns (λ s. length s.filescope ≡ depth) r
  deep files (done s) depth e h = cc
  deep files (raised x) depth e h = elim h [ ]

  -- An event that is heard with `depth` files open, and leaves `after` of them open.
  proceed :
      (e : Event) (es : List Event) (after : ℕ) (s : Callback)
      → IsValid tools.interested s
      → Returns (λ s'. length s'.filescope ≡ after) (hear tools e s)
      → ((s' : Callback) → Depth after s' → Returns (IsValid tools.interested) (listen tools es s'))
      → Returns (IsValid tools.interested) (listen tools (e ∷ es) s)
  unfolding listen
  proceed e es after s v r h =
      Returns-and_then (Depth after) _ (hear tools e s) _
        (both _ _ (hear tools e s) (hear-IsValid tools e s v) r) h

  listen-Depth :
      (es : List Event) (depth : ℕ) (s : Callback)
      → nested tools depth es ≡ true
      → Depth depth s
      → Returns (IsValid tools.interested) (listen tools es s)
  unfolding listen hear end_file start_file
  listen-Depth [] depth s h v = v.0
  listen-Depth (defined_macro line text ∷ es) depth s h v =
      proceed (defined_macro line text) es depth s v.0
        (deep _ (define tools line text s) depth v.1 (define-Stays line text s (ground arith) v.0))
        λ s' v'. listen-Depth es depth s' (ground arith) v'
  listen-Depth (undefined_macro ∷ es) depth s h v =
      proceed undefined_macro es depth s v.0 v.1 λ s' v'. listen-Depth es depth s' h v'
  listen-Depth (file_started file ∷ es) depth s h v =
      proceed (file_started file) es (suc depth) s v.0 (let e = v.1 in omega arith)
        λ s' v'. listen-Depth es (suc depth) s' h v'
  listen-Depth (file_ended ∷ es) zero s h v = ground arith
  listen-Depth (file_ended ∷ es) (suc depth) s h v =
      proceed file_ended es depth s v.0 (leave-Depth s.filescope s depth v.1)
        λ s' v'. listen-Depth es depth s' h v'

-- A run of the macro callback from the empty scope, whose events close a file only when it is open, and
-- whose definitions close the arguments they open, these being for python a name, a constant, a
-- sequence of names and constants, or a SyntaxError, returns. The counter is then the number of open
-- files of interest, and the macros that are written have different names, all of which are known.
pub listen-IsValid :
    (tools : Tools) (es : List Event) (known : List Text)
    → nested tools 0 es ≡ true
    → Returns (IsValid tools.interested) (listen tools es (fresh known))
listen-IsValid tools es known h =
    listen-Depth tools es 0 (fresh known) h
      (record { counted = refl; known = refl; unique = tt }, refl)
