-- ===== src/Names/Examples.antt =====
-- Names from debug information, and their python identifiers.
use ctypegen.Base.{
  Text, codes, Bool, true, false, some, ◌≡◌, refl, ◌++◌, text_eq, text_eq_sound, ◌↔◌, subst, sym,
}
use ctypegen.Names.{replacement, escape, escape_char, avoid_keyword, as_python_id}
use ctypegen.Names.Valid.{IsPlain, as_python_id_valid, as_python_id-eq_self_iff}

-- A language with one keyword.
abbrev only_class : Text → Bool
only_class s = text_eq s (codes "class")

only_class-underscored : (s : Text) → only_class s ≡ true → only_class (s ++ codes "_") ≡ false
unfolding text_eq
only_class-underscored s h =
    subst (λ t. only_class (t ++ codes "_") ≡ false) (sym (text_eq_sound s (codes "class") h)) refl

vector_run :
    as_python_id only_class (some (codes "vec<int, 3>")) ≡ some (codes "vec_lt_int_comma_sp_3_gt")
unfolding as_python_id escape replacement text_eq avoid_keyword escape_char
vector_run = refl

keyword_run : as_python_id only_class (some (codes "class")) ≡ some (codes "class_")
unfolding as_python_id escape replacement text_eq avoid_keyword escape_char
keyword_run = refl

as_python_id_valid_example :
    IsPlain (codes "vec_lt_int_comma_sp_3_gt")
    × (only_class (codes "vec_lt_int_comma_sp_3_gt") ≡ false)
as_python_id_valid_example =
    as_python_id_valid only_class only_class-underscored (codes "vec<int, 3>")
      (codes "vec_lt_int_comma_sp_3_gt") vector_run

as_python_id-eq_self_iff_example :
    (as_python_id only_class (some (codes "a_b")) ≡ some (codes "a_b"))
    ↔ (IsPlain (codes "a_b") × (only_class (codes "a_b") ≡ false))
as_python_id-eq_self_iff_example =
    as_python_id-eq_self_iff only_class only_class-underscored (codes "a_b")
