-- ===== src/Write/Prototypes.antt =====
-- The prototypes that a function gets: one for each name of its symbol that is no keyword.
use ctypegen.Base.{
  ℕ, ◌+◌, List, [], ◌∷◌, ◌++◌, Bool, Text, text_mem, ◌≡◌, refl, sym, arith, append_assoc,
  append-nil, Bool-cases, inl, inr, if◌then◌else◌, ◌∙◌,
}
use ctypegen.Dwarf.{Result, ok}
use ctypegen.Write.Library.{
  Function, Prototype, Updates, dynamic_names, distinct_names, linker_names, arg_texts,
  restype_text, write_prototype, write_names, write_lib_updates,
}
use ctypegen.Write.Sorted.{
  IsAscending, sorted-IsAscending, text_mem-sorted, text_mem-distinct_names,
}

module _ (iskeyword : Text → Bool) where
  -- The prototypes for the names that are no keywords, and how many are.
  abbrev pub prototypes_for : Text → List Text → List Text → List Prototype
  prototypes_for restype args [] = []
  prototypes_for restype args (n ∷ ns) =
      if iskeyword n
      then prototypes_for restype args ns
      else record { name = n; restype = restype; argtypes = args } ∷ prototypes_for restype args ns

  abbrev pub keywords_in : List Text → ℕ
  keywords_in [] = 0
  keywords_in (n ∷ ns) = (if iskeyword n then 1 else 0) + keywords_in ns

  abbrev pub updated : Text → List Text → List Text → Updates → Updates
  updated restype args ns u = record {
    prototypes = u.prototypes ++ prototypes_for restype args ns;
    errors = u.errors + keywords_in ns;
  }

  abbrev updates : List Prototype → ℕ → Updates
  updates prototypes errors = record { prototypes = prototypes; errors = errors }

  Updates-eq :
      {p q : List Prototype} {m n : ℕ}
      → p ≡ q
      → m ≡ n
      → ◌≡◌ {A = Result Updates} (ok (updates p m)) (ok (updates q n))
  Updates-eq e k = rw (e, k) refl

  module _ (call : ℕ → Result Text) (d : Function) (restype : Text) (args : List Text)
      (returned : restype_text iskeyword call d.returned ≡ ok restype)
      (params : arg_texts iskeyword call d.params ≡ ok args) where
    write_names_lem :
        (ns : List Text) (u : Updates)
        → write_names iskeyword call d ns u ≡ ok (updated restype args ns u)
    unfolding write_names write_prototype
    write_names_lem [] u = Updates-eq (sym (append-nil u.prototypes)) (omega arith)
    write_names_lem (n ∷ ns) u = elim (Bool-cases (iskeyword n)) [
      | inl e ↦
          rw e (
            write_names_lem ns (record u { errors = u.errors + 1 }) ∙ Updates-eq refl (omega arith))
      | inr e ↦
          rw (e, returned, params)
            (write_names_lem ns (record u {
              prototypes =
                  u.prototypes ++ record { name = n; restype = restype; argtypes = args } ∷ [];
            })
              ∙ Updates-eq (append_assoc u.prototypes _ (prototypes_for restype args ns))
                  (omega arith))
    ]

    -- If the types of a function have a ctype, the function gets one prototype for each name of its symbol
    -- that is no keyword, in the order of the names, all with these types, and one error for each name that
    -- is a keyword; the names are those of the function's address and, if the function is external, the name
    -- of its symbol, each once.
    pub write_lib_updates_lem :
        (u : Updates)
        → (write_lib_updates iskeyword call d u ≡ ok (updated restype args (linker_names d) u))
          × (IsAscending (linker_names d)
              × ((t : Text) → text_mem t (linker_names d) ≡ text_mem t (dynamic_names d)))
    unfolding write_lib_updates
    write_lib_updates_lem u = (
      write_names_lem (linker_names d) u,
      (
        sorted-IsAscending (dynamic_names d),
        λ t.
            text_mem-sorted t (distinct_names (dynamic_names d))
            ∙ text_mem-distinct_names t (dynamic_names d),
      ),
    )
