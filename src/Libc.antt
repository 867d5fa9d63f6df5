-- ===== src/Libc.antt =====
-- generateLibc.py: the types and functions of the C library that are generated, by the platform, and
-- CTypeGen/__init__.py, the filters of `generateAll`.
pub mod Filters
mod Examples
use ctypegen.Base.{
  ℕ, List, [], ◌∷◌, ◌++◌, Bool, true, false, not, ◌&&◌, Option, none, some, Text, String, codes,
  text_eq, text_mem, map, if◌then◌else◌, is_some,
}
use ctypegen.Examine.Keys.{Name, name_mem}
use ctypegen.Hints.{PythonType, new_python_type}
use ctypegen.Write.Library.{Function, Object, linker_name}

-- The platforms that `platform.machine()` is compared with.
pub data Platform : Type 0 where
  aarch64 x86_64 i386 another : Platform

unfoldable pub platform_of : Text → Platform
platform_of machine =
    if text_eq machine (codes "aarch64")
    then aarch64
    else if text_eq machine (codes "x86_64")
    then x86_64
    else if text_mem machine (codes "i386" ∷ codes "i686" ∷ [])
    then i386
    else another

-- `platformPacked`
abbrev pub platform_packed : Platform → List Text
platform_packed x86_64 = codes "epoll_event" ∷ []
platform_packed aarch64 = []
platform_packed i386 = []
platform_packed another = []

-- `platformBroken`
abbrev pub platform_broken : Platform → List Text
platform_broken aarch64 =
    codes "DIR"
    ∷ codes "__dirstream"
    ∷ codes "__prfpregset_t"
    ∷ codes "elf_fpregset_t"
    ∷ codes "fpregset_t"
    ∷ codes "mcontext_t"
    ∷ codes "prfpregset_t"
    ∷ codes "sigcontext"
    ∷ codes "struct_user_fpsimd_struct"
    ∷ codes "ucontext_t"
    ∷ codes "user_fpsimd_struct"
    ∷ []
platform_broken x86_64 =
    codes "DIR"
    ∷ codes "_Unwind_Exception"
    ∷ codes "__dirstream"
    ∷ codes "epoll_data"
    ∷ codes "helper_file"
    ∷ codes "stackblock"
    ∷ []
platform_broken i386 =
    codes "__timex64"
    ∷ codes "scratch_buffer"
    ∷ codes "char_buffer"
    ∷ codes "max_align_t"
    ∷ codes "printf_arg"
    ∷ []
platform_broken another = []

-- The types that are broken on each platform.
abbrev pub common_broken : List Text
common_broken =
    codes "cached_data"
    ∷ codes "hashentry"
    ∷ codes "in6addrinfo"
    ∷ codes "_IO_FILE_complete"
    ∷ codes "_IO_FILE_complete_plus"
    ∷ codes "_IO_lock_t"
    ∷ codes "printf_info"
    ∷ codes "printf_spec"
    ∷ codes "raise"
    ∷ codes "link_map"
    ∷ codes "rtld_global"
    ∷ codes "pthread"
    ∷ []

-- `( n, )` for each name.
abbrev pub full_names : List Text → List Name
full_names [] = []
full_names (n ∷ ns) = (n ∷ []) ∷ full_names ns

abbrev pub packed : Platform → List Name
packed p = full_names (platform_packed p)

abbrev pub broken : Platform → List Name
broken p = full_names (common_broken ++ platform_broken p)

-- What `notBroken` returns: False, True, or a hint, which is true as well.
pub data TypeAnswer : Type 0 where
  left_out taken : TypeAnswer
  taken_as : PythonType → TypeAnswer

-- `PythonType( fname, pack=True, unalignedPtrs=True )`, but for its name.
unfoldable pub pack_hint : PythonType
pack_hint = new_python_type none true none none true

-- `notBroken`
unfoldable pub not_broken : Platform → Name → TypeAnswer
not_broken p name =
    if name_mem name (packed p)
    then taken_as pack_hint
    else if name_mem name (broken p)
    then left_out
    else taken

-- `die.DW_AT_low_pc in die.object().dynaddrs()`, where None is no key: `externFunc`.
unfoldable pub extern_function : Object → Option ℕ → Bool
extern_function object none = false
extern_function object (some address) = is_some (object.dynaddrs address)

-- `haveDyn`
unfoldable pub have_dyn : Function → Bool
have_dyn d = extern_function d.object d.low_pc

abbrev pub is_kept : TypeAnswer → Bool
is_kept left_out = false
is_kept taken = true
is_kept (taken_as hint) = true

-- The filter for functions of the call of `generate`.
unfoldable pub functions_filter : Platform → Name → Function → Bool
functions_filter p name d = is_kept (not_broken p name) && have_dyn d

-- `externData`; the names are `DW_AT_linkage_name` and `die.name()`, and an empty one is not taken.
unfoldable pub data_name : Option Text → Text → Text
data_name none name = name
data_name (some []) name = name
data_name (some (c ∷ linkage_name)) name = c ∷ linkage_name

unfoldable pub extern_data : Object → Option Text → Text → Bool
extern_data object linkage_name name = object.symbol (data_name linkage_name name)

-- The filter for types of `generateAll`.
unfoldable pub types_filter : List Text → Text → Bool
types_filter skip_types name = not (text_mem name skip_types)
