-- ===== src/Hints/Finding.antt =====
-- CTypeGen/__init__.py: the entries of the members that `findMembers` finds.
use ctypegen.Base.{
  ℕ, List, [], ◌∷◌, ◌++◌, Bool, true, false, not, ◌&&◌, Option, none, some, Text, ◌≡◌, sym, ap, ◌∙◌,
  Bool-cases, inl, inr, map, if◌then◌else◌, arith, append_assoc, append-nil,
}
use mathlib.Core.List.{foldl, map-append}
use ctypegen.Dwarf.{Tag, inheritance, member, Dwarf}
use ctypegen.Hints.{Shape}
use ctypegen.Layout.Members.{
  Member, Found, Role, base, field, ignored, unknown, role, nothing_found, add_field, add_child,
  find_member, find_members,
}

abbrev pub entries : List Member → List ℕ
entries ms = map (λ (m : Member). m.die) ms

abbrev pub entries_of : Shape → List ℕ
entries_of s = entries s.members

-- The children that are fields or base classes.
abbrev holds_member : Role → Bool
holds_member base = true
holds_member field = true
holds_member _ = false

-- The entries of the fields and base classes that are not external.
abbrev pub is_member : Tag → Bool
is_member inheritance = true
is_member member = true
is_member _ = false

abbrev pub member_children : Dwarf → List ℕ → List ℕ
member_children d [] = []
member_children d (h ∷ hs) =
    (if not (d h).external && is_member (d h).tag then h ∷ [] else []) ++ member_children d hs

role-holds_member : (t : Tag) → holds_member (role t) ≡ is_member t
unfolding role
role-holds_member t = ground arith

add_field-entries :
    (h : ℕ) (name : Option Text) (s : Found)
    → entries (add_field h name s).members ≡ entries s.members ++ h ∷ []
unfolding add_field
add_field-entries h none s = map-append _ s.members _
add_field-entries h (some name) s = map-append _ s.members _

add_child-entries :
    (h : ℕ) (name : Option Text) (r : Role) (s : Found)
    → entries (add_child h name r s).members
      ≡ entries s.members ++ (if holds_member r then h ∷ [] else [])
unfolding add_child
add_child-entries h name base s = map-append _ s.members _
add_child-entries h name field s = add_field-entries h name s
add_child-entries h name ignored s = sym (append-nil _)
add_child-entries h name unknown s = sym (append-nil _)

find_member-entries :
    (d : Dwarf) (s : Found) (h : ℕ)
    → entries (find_member d s h).members
      ≡ entries s.members ++ (if not (d h).external && is_member (d h).tag then h ∷ [] else [])
unfolding find_member
find_member-entries d s h = elim (Bool-cases (d h).external) [
  | inl e ↦ rw e (sym (append-nil _))
  | inr e ↦ rw e (
      add_child-entries h (d h).name (role (d h).tag) s
      ∙ ap (λ b. entries s.members ++ (if b then h ∷ [] else [])) (role-holds_member (d h).tag))
]

foldl-entries :
    (d : Dwarf) (hs : List ℕ) (s : Found)
    → entries (foldl (find_member d) s hs).members ≡ entries s.members ++ member_children d hs
foldl-entries d [] s = sym (append-nil _)
foldl-entries d (h ∷ hs) s =
    foldl-entries d hs (find_member d s h)
    ∙ (ap (λ es. es ++ member_children d hs) (find_member-entries d s h)
        ∙ append_assoc (entries s.members) _ (member_children d hs))

pub find_members-entries :
    (d : Dwarf) (h : ℕ) → entries (find_members d h).members ≡ member_children d (d h).children
unfolding find_members
find_members-entries d h = foldl-entries d (d h).children nothing_found
