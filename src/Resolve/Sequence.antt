-- ===== src/Resolve/Sequence.antt =====
-- The wrappers `declareType` and `defineType` around the methods, and all of the calls.
use ctypegen.Base.{
  ℕ, zero, suc, List, ◌∷◌, Bool, true, false, not, ◌||◌, ◌==◌, ◌≡◌, refl, subst, arith, inl, inr,
  Bool-cases, ==_iff,
}
use ctypegen.Dwarf.Ensures.{AnyError, Ensures, returns, raises, Ensures-bind, Ensures-if}
use ctypegen.Resolve.{
  TypeObject, State, is_in, Mode, declaring, defining, Visit, mark_declared, mark_defined,
  declare_type, define_type, resolve,
}
use ctypegen.Resolve.Readable.{is_exempt, Readable, exempt, Whole, exempt_whole}
use ctypegen.Resolve.Ordered.{AllSolid, Appends-same, InOrder, AfterOrdering, Ordering-same}
use ctypegen.Resolve.Statements.{Declares, declare-Declares}
use ctypegen.Resolve.Definitions.{define-Ordering}

-- A type that comes to have a property joins those that have it.
newly :
    (P : ℕ → Type 0) (t : ℕ) (ts : List ℕ)
    → ((u : ℕ) → is_in u ts ≡ true → P u)
    → P t
    → (u : ℕ) → is_in u (t ∷ ts) ≡ true
    → P u
newly P t ts all r u h = elim (Bool-cases (t == u)) [
  | inl e ↦ subst P ((==_iff t u).0 e) r
  | inr e ↦ all u (ground arith)
]

-- A type that is among those has their property, and so does one that is not written.
known :
    (types : ℕ → TypeObject) (P : ℕ → Type 0) (t : ℕ) (ts : List ℕ)
    → ((u : ℕ) → is_in u ts ≡ true → P u)
    → (is_exempt types t ≡ true → P t)
    → is_in t ts || is_exempt types t ≡ true
    → P t
known types P t ts all unwritten h = elim (Bool-cases (is_in t ts)) [
  | inl e ↦ all t e
  | inr e ↦ unwritten (ground arith)
]

module _ (types : ℕ → TypeObject) (solid : AllSolid types) (deep : Bool) (visit : Visit)
    (call : (mode : Mode) (t : ℕ) (s : State)
      → InOrder types s
      → Ensures AnyError (AfterOrdering types mode t s) (visit mode t s)) where
  declared-InOrder :
      (t : ℕ) (s s' : State)
      → Declares types solid deep visit call t s s'
      → AfterOrdering types declaring t s (true, mark_declared t s')
  unfolding mark_declared
  declared-InOrder t s s' ((a, (ordered, (declared, defined))), r) =
      ((a, (ordered, (newly (Readable types s'.output) t s'.declared declared r, defined))), r)

  defined-InOrder :
      (t : ℕ) (b : Bool) (s s' : State)
      → AfterOrdering types defining t s (b, s')
      → AfterOrdering types defining t s (b, mark_defined t b s')
  unfolding mark_defined
  defined-InOrder t true s s' ((a, (ordered, (declared, defined))), r) =
      ((a, (ordered, (declared, newly (Whole types s'.output) t s'.defined defined r))), r)
  defined-InOrder t false s s' h = h

  declare_type-Ordering :
      (t : ℕ) (s : State)
      → InOrder types s
      → Ensures AnyError (AfterOrdering types declaring t s) (declare_type types deep visit t s)
  unfolding declare_type
  declare_type-Ordering t s i =
      Ensures-if (is_in t s.declared || (types t).is_foreign)
        (λ e. returns (
          Ordering-same types s i,
          known types (Readable types s.output) t s.declared i.1.0 (λ x. exempt x) (ground arith),
        ))
        λ e.
          Ensures-bind (declare-Declares types solid deep visit call t (types t).class s refl i)
            λ s' d. returns (declared-InOrder t s s' d)

  define_type-Ordering :
      (t : ℕ) (s : State)
      → InOrder types s
      → Ensures AnyError (AfterOrdering types defining t s) (define_type types deep visit t s)
  unfolding define_type
  define_type-Ordering t s i =
      Ensures-if (not (types t).has_die || (is_in t s.defined || (types t).is_foreign))
        (λ e. returns (
          Ordering-same types s i,
          known types (Whole types s.output) t s.defined i.1.1 (λ x. exempt_whole x) (ground arith),
        ))
        λ e.
          Ensures-if (types t).is_void
            (λ v. returns ((Appends-same types s.output, i), exempt_whole (ground arith)))
            λ v.
              Ensures-bind
                (define-Ordering types solid deep visit call t (types t).class s refl (ground arith)
                  i)
                λ (b, s') o. returns (defined-InOrder t b s s' o)

-- Calls that return leave the output in order, if it was before.
pub resolve-Ordering :
    (types : ℕ → TypeObject) (deep : Bool) (f : ℕ) (mode : Mode) (t : ℕ) (s : State)
    → AllSolid types
    → InOrder types s
    → Ensures AnyError (AfterOrdering types mode t s) (resolve types deep f mode t s)
unfolding resolve
resolve-Ordering types deep zero mode t s solid i = raises tt
resolve-Ordering types deep (suc f) declaring t s solid i =
    declare_type-Ordering types solid deep (resolve types deep f)
      (λ mode u s' j. resolve-Ordering types deep f mode u s' solid j) t s i
resolve-Ordering types deep (suc f) defining t s solid i =
    define_type-Ordering types solid deep (resolve types deep f)
      (λ mode u s' j. resolve-Ordering types deep f mode u s' solid j) t s i
