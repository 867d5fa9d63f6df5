-- ===== src/Mock/Loading.antt =====
-- CMock/__init__.py: the search for the shared object of the module, the default method of `Mock`, `mangleFunc`
-- and `mangleData`; CMock/helpers.py: `getLibc`. The dynamic linker and the symbols of a library are parameters.
use ctypegen.Base.{
  ℕ, ◌^◌, List, [], ◌∷◌, Option, none, some, Text, codes, ltb, if◌then◌else◌, ◌≡◌, refl,
}
use ctypegen.Mock.Hook.{Method, got, stomp, ReturnType, Function, the_symbol}
use ctypegen.Mock.Syscalls.{SyscallPrototype, decorate_syscalls}

-- What a later attempt gives, or else what there was.
abbrev or_before {ℓ} : {A : Type ℓ} → Option A → Option A → Option A
or_before before none = before
or_before before (some a) = some a

abbrev or_after {ℓ} : {A : Type ℓ} → Option A → Option A → Option A
or_after none other = other
or_after (some a) other = some a

module _ {L : Type 0} (cdll : Text → Option L) where
  -- The loop over the files of a directory; `cdll` gives none for an OSError.
  unfoldable pub first_loaded : List Text → Option L
  first_loaded [] = none
  first_loaded (name ∷ names) = or_after (cdll name) (first_loaded names)

  -- The loop over the directories, each with its files: `break` leaves the inner loop only.
  unfoldable pub search_sites : List (List Text) → Option L → Option L
  search_sites [] found = found
  search_sites (names ∷ sites) found = search_sites sites (or_before found (first_loaded names))

  -- `cmockCdll`; none stands for the OSError of the last attempt.
  unfoldable pub find_cdll : List (List Text) → Option L
  find_cdll sites = or_after (search_sites sites none) (cdll (codes "libCTypeMock.so"))

-- The default of `method`, from `sys.maxsize`.
unfoldable pub default_method : ℕ → Method
default_method maxsize = if ltb (2 ^ 32) maxsize then got else stomp

-- What a lookup by a mangled name ends with: exactly one symbol is wanted, and the library must have it.
pub data Lookup (A : Type 0) : Type 0 where
  found : A → Lookup A
  not_one_symbol no_such_symbol : Lookup A

abbrev or_missing : {A : Type 0} → Option A → Lookup A
or_missing none = no_such_symbol
or_missing (some a) = found a

abbrev or_kept {ℓ} : {A : Type ℓ} → Option A → A → A
or_kept none a = a
or_kept (some b) a = b

-- The types that `mangleFunc` sets, where they are given.
unfoldable pub decorated : Option ReturnType → Option (List ℕ) → Function → Function
decorated restype argtypes f = record f {
  restype = or_kept restype f.restype;
  argtypes = or_after argtypes f.argtypes;
}

abbrev map_found : {A B : Type 0} → (A → B) → Lookup A → Lookup B
map_found f (found a) = found (f a)
map_found f not_one_symbol = not_one_symbol
map_found f no_such_symbol = no_such_symbol

-- A symbol of the library, if the expression matches one only.
unfoldable pub lookup_symbol : {A : Type 0} → (Text → Option A) → Option Text → Lookup A
lookup_symbol attribute none = not_one_symbol
lookup_symbol attribute (some symbol) = or_missing (attribute symbol)

-- `mangleFunc`: `mangle` finds the symbols for a name.
unfoldable pub mangle_func :
    (Text → List Text)
    → (Text → Option Function)
    → Text
    → Option ReturnType
    → Option (List ℕ)
    → Lookup Function
mangle_func mangle functions name restype argtypes =
    map_found (decorated restype argtypes) (lookup_symbol functions (the_symbol (mangle name)))

-- `mangleData`: `in_dll` gives a ctypes object at a symbol.
unfoldable pub mangle_data : {D : Type 0} → (Text → List Text) → (Text → Option D) → Text → Lookup D
mangle_data mangle in_dll name = lookup_symbol in_dll (the_symbol (mangle name))

-- The functions that `getLibc` returns: those of the library, as the generated module decorates them, and then
-- with the prototypes of system calls.
unfoldable pub get_libc :
    ((Text → Option SyscallPrototype) → Text → Option SyscallPrototype)
    → (Text → Option SyscallPrototype)
    → Text
    → Option SyscallPrototype
get_libc decorate_functions libc = decorate_syscalls (decorate_functions libc)

-- A library in each of two directories: the one in the last is taken.
search_run :
    find_cdll (λ name. some name) ((codes "a.so" ∷ []) ∷ (codes "b.so" ∷ []) ∷ [])
    ≡ some (codes "b.so")
unfolding find_cdll search_sites first_loaded
search_run = refl

default_run : default_method 9223372036854775807 ≡ got
unfolding default_method
default_run = refl

two_symbols_run :
    mangle_func (λ name. codes "f1" ∷ codes "f2" ∷ []) (λ s. none) (codes "f") none none
    ≡ not_one_symbol
unfolding mangle_func lookup_symbol the_symbol
two_symbols_run = refl
