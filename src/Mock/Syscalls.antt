-- ===== src/Mock/Syscalls.antt =====
-- CMock/helpers.py: `setErrnoAndReturnFn`, and the prototypes of system calls in `_decorateSyscalls`.
use ctypegen.Base.{ℕ, List, [], ◌∷◌, Option, none, some, Text, codes, lookup, text_eq, ◌≡◌, refl}
use ctypegen.Mock.Hook.{Outcome, returned}

-- The errno of a thread, with what a call returns: the arguments are not looked at.
unfoldable pub set_errno_and_return : {A R : Type 0} → ℕ → R → A → ℕ → Outcome R × ℕ
set_errno_and_return error rv args errno = (returned rv, error)

-- The types of ctypes that the prototypes mention.
pub data SyscallType : Type 0 where
  c_int c_void_p c_uint c_long c_ulong c_char_p : SyscallType
  pointer_of : SyscallType → SyscallType

-- `restype` and `argtypes`.
abbrev pub SyscallPrototype : Type 0
SyscallPrototype = SyscallType × List SyscallType

-- The calls of `proto`.
abbrev pub syscalls : List (Text × SyscallPrototype)
syscalls =
    (codes "getsockopt", (c_int, c_int ∷ c_int ∷ c_int ∷ c_void_p ∷ pointer_of c_uint ∷ []))
    ∷ (codes "connect", (c_int, c_int ∷ c_void_p ∷ c_uint ∷ []))
    ∷ (codes "socket", (c_int, c_int ∷ c_int ∷ c_int ∷ []))
    ∷ (codes "getsockname", (c_int, c_int ∷ c_void_p ∷ pointer_of c_uint ∷ []))
    ∷ (codes "bind", (c_int, c_int ∷ c_void_p ∷ c_uint ∷ []))
    ∷ (codes "setsockopt", (c_int, c_int ∷ c_int ∷ c_int ∷ c_void_p ∷ c_uint ∷ []))
    ∷ (codes "recv", (c_long, c_int ∷ c_void_p ∷ c_int ∷ c_int ∷ []))
    ∷ (codes "sendmsg", (c_int, c_int ∷ c_void_p ∷ c_int ∷ []))
    ∷ (codes "accept", (c_int, c_int ∷ c_void_p ∷ pointer_of c_uint ∷ []))
    ∷ (codes "ioctl", (c_int, c_int ∷ c_int ∷ pointer_of c_long ∷ []))
    ∷ (codes "send", (c_long, c_int ∷ c_void_p ∷ c_ulong ∷ c_int ∷ []))
    ∷ (codes "write", (c_long, c_int ∷ c_void_p ∷ c_ulong ∷ []))
    ∷ (codes "getppid", (c_int, []))
    ∷ (codes "listen", (c_int, c_int ∷ c_int ∷ []))
    ∷ (codes "open", (c_int, c_char_p ∷ c_int ∷ c_int ∷ []))
    ∷ (codes "open64", (c_int, c_char_p ∷ c_int ∷ c_int ∷ []))
    ∷ []

-- `_decorateSyscalls`, on the prototypes of the functions of the library: those of the table come first.
unfoldable pub decorate_syscalls : (Text → Option SyscallPrototype) → Text → Option SyscallPrototype
decorate_syscalls before name = elim (lookup name syscalls) [ none ↦ before name | some p ↦ some p ]

-- `recv` is given a length of type int, `send` one of type unsigned long.
recv_run :
    decorate_syscalls (λ name. none) (codes "recv")
    ≡ some (c_long, c_int ∷ c_void_p ∷ c_int ∷ c_int ∷ [])
unfolding decorate_syscalls lookup text_eq
recv_run = refl
