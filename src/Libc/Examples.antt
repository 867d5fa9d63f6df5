-- ===== src/Libc/Examples.antt =====
-- The names that the filters for the C library treat apart.
use ctypegen.Base.{[], ◌∷◌, true, false, none, some, Text, codes, text_eq, text_mem, ◌≡◌, refl}
use ctypegen.Examine.Keys.{name_mem, name_eq}
use ctypegen.Libc.{
  left_out, taken, taken_as, pack_hint, x86_64, i386, platform_of, not_broken, extern_function,
  have_dyn, functions_filter, types_filter,
}
use ctypegen.Libc.Filters.{functions_filter-linker_names}
use ctypegen.Write.Library.{Function, linker_names}

platform_run : platform_of (codes "i686") ≡ i386
unfolding platform_of text_eq text_mem
platform_run = refl

broken_run : not_broken x86_64 (codes "raise" ∷ []) ≡ left_out
unfolding not_broken name_mem name_eq text_eq
broken_run = refl

packed_run : not_broken x86_64 (codes "epoll_event" ∷ []) ≡ taken_as pack_hint
unfolding not_broken name_mem name_eq text_eq
packed_run = refl

packed_elsewhere : not_broken i386 (codes "epoll_event" ∷ []) ≡ taken
unfolding not_broken name_mem name_eq text_eq
packed_elsewhere = refl

skip_run : types_filter (codes "a" ∷ []) (codes "a") ≡ false
unfolding types_filter text_mem text_eq
skip_run = refl

abbrev reader : Function
reader = record {
  object = record { dynaddrs = λ address. some (codes "read" ∷ []); symbol = λ name. false };
  name = codes "read";
  linkage_name = none;
  low_pc = some 16;
  external = false;
  returned = none;
  params = [];
}

reader_kept : functions_filter x86_64 (codes "read" ∷ []) reader ≡ true
unfolding functions_filter not_broken have_dyn extern_function name_mem name_eq text_eq
reader_kept = refl

functions_filter-linker_names_example : (n : Text) × (text_mem n (linker_names reader) ≡ true)
functions_filter-linker_names_example =
    functions_filter-linker_names x86_64 (codes "read" ∷ []) reader (λ address e. cc) reader_kept
