-- ===== src/Mock/Hook.antt =====
-- CMock/__init__.py: `mocked`, `Mock`, `exceptionWrapper` and the checks on functions and symbols.
use ctypegen.Base.{ℕ, List, [], ◌∷◌, Bool, true, false, Option, none, some, Text}

-- `GOT`, `STOMP`, `PRE`, or another number.
pub data Method : Type 0 where
  got stomp pre : Method
  other : ℕ → Method

-- A return type: None, a pointer type, or another ctypes type.
pub data ReturnType : Type 0 where
  no_value pointer_type void_pointer : ReturnType
  value_type : ℕ → ReturnType

-- A ctypes function. `argtypes` is none where no types were given.
pub record Function : Type 0 where
  pub name : Text
  pub restype : ReturnType
  pub argtypes : Option (List ℕ)

pub data HookError : Type 0 where
  no_argument_types unknown_method ambiguous_symbol : HookError

-- The `mocked` object: its callback's return type, whether it has `realfunc`, whether it is enabled.
pub record Hook : Type 0 where
  pub linkername : Text
  pub method : Method
  pub callback : ReturnType
  pub argtypes : List ℕ
  pub library : Option ℕ
  pub has_realfunc : Bool
  pub enabled : Bool

pub data Made : Type 0 where
  made : Hook → Made
  failed : HookError → Made

-- `callbackReturnType`
unfoldable pub callback_type : Method → ReturnType → ReturnType
callback_type pre restype = no_value
callback_type method pointer_type = void_pointer
callback_type method restype = restype

-- The dispatch on `method`: whether `realfunc` is set.
unfoldable pub dispatch : Method → Option Bool
dispatch got = some true
dispatch stomp = some false
dispatch pre = some false
dispatch (other n) = none

unfoldable pub build : Function → Option ℕ → Method → List ℕ → Option Bool → Made
build function library method argtypes none = failed unknown_method
build function library method argtypes (some realfunc) = made (record {
  linkername = function.name;
  method = method;
  callback = callback_type method function.restype;
  argtypes = argtypes;
  library = library;
  has_realfunc = realfunc;
  enabled = false;
})

-- `check_ctypes_decorations`, which raises where there are no argument types.
unfoldable pub check_decorations : Function → Option ℕ → Method → Option (List ℕ) → Made
check_decorations function library method none = failed no_argument_types
check_decorations function library method (some argtypes) =
    build function library method argtypes (dispatch method)

-- `mocked.__init__`
unfoldable pub mocked : Function → Option ℕ → Method → Made
mocked function library method = check_decorations function library method function.argtypes

unfoldable pub enable : Hook → Hook
enable h = record h { enabled = true }

unfoldable pub disable : Hook → Hook
disable h = record h { enabled = false }

-- `Mock.__call__`: the hook is made and enabled at once.
unfoldable pub decorate : Function → Option ℕ → Method → Made
decorate function library method = elim (mocked function library method) [
  | made h ↦ made (enable h)
  | failed e ↦ failed e
]

-- What python code does when it is called: it returns, or it raises an exception.
pub data Outcome (R : Type 0) : Type 0 where
  returned : R → Outcome R
  raised : Outcome R

-- What C code sees of a call: a value, or the process is aborted.
pub data Reply (R : Type 0) : Type 0 where
  value : R → Reply R
  aborted : Reply R

-- `exceptionWrapper`
unfoldable pub wrapped : {R : Type 0} → Outcome R → Reply R
wrapped (returned r) = value r
wrapped raised = aborted

-- `__enter__` and `__exit__` around a body that works with the hook and may raise: the hook is enabled
-- for the body and disabled behind it, also behind an exception.
unfoldable pub with_hook : {R : Type 0} → (Hook → Outcome R × Hook) → Hook → Outcome R × Hook
with_hook body h = let (o, h') = body (enable h) in (o, disable h')

-- The symbols that `libCTypeMock.mangle` finds for a name: exactly one is wanted.
unfoldable pub the_symbol : List Text → Option Text
the_symbol (s ∷ []) = some s
the_symbol [] = none
the_symbol (s ∷ t ∷ ts) = none
