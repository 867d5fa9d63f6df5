-- ===== src/Primitive.antt =====
-- CTypeGen/__init__.py: the tables `_baseTypeEncoding` and `_baseTypes`, and the alignment and the ctype
-- of a base type that they give.
pub mod Divides
mod Examples
use ctypegen.Base.{
  ℕ, zero, suc, ◌+◌, List, [], ◌∷◌, ◌++◌, Bool, ◌&&◌, Option, none, some, Text, codes, text_eq,
  lookup, decimal, if◌then◌else◌, ◌==◌,
}

-- The `DW_ATE_` names that the table mentions.
pub data Encoding : Type 0 where
  boolean complex_float float signed signed_char unsigned unsigned_char decimal_float : Encoding
  other : ℕ → Encoding

-- A number for each encoding, to compare them.
abbrev pub encoding_number : Encoding → ℕ
encoding_number boolean = 0
encoding_number complex_float = 1
encoding_number float = 2
encoding_number signed = 3
encoding_number signed_char = 4
encoding_number unsigned = 5
encoding_number unsigned_char = 6
encoding_number decimal_float = 7
encoding_number (other n) = n + 8

-- What `_align` chooses from: the alignment for pointers of 4 bytes, and for larger ones.
pub record Choice : Type 0 where
  pub narrow : Option ℕ
  pub wide : Option ℕ

-- `_align`, on a machine whose pointers have 4 bytes or more.
unfoldable pub align : Bool → Choice → Option ℕ
align is_narrow c = if is_narrow then c.narrow else c.wide

abbrev choice : Option ℕ → Option ℕ → Choice
choice narrow wide = record { narrow = narrow; wide = wide }

-- An entry of `_baseTypeEncoding`.
pub record Row : Type 0 where
  pub encoding : Encoding
  pub size : ℕ
  pub ctype : Text
  pub alignment : Choice

abbrev row : Encoding → ℕ → Text → Choice → Row
row encoding size ctype alignment = record {
  encoding = encoding;
  size = size;
  ctype = ctype;
  alignment = alignment;
}

-- `_baseTypeEncoding`
abbrev pub encodings : List Row
encodings =
    row boolean 1 (codes "c_bool") (choice (some 1) (some 1))
    ∷ row complex_float 32 (codes "(c_longdouble * 2)") (choice (some 16) (some 16))
    ∷ row complex_float 24 (codes "(c_longdouble * 2)") (choice (some 4) none)
    ∷ row complex_float 16 (codes "(c_longdouble)") (choice (some 8) (some 8))
    ∷ row complex_float 8 (codes "c_double") (choice (some 4) (some 4))
    ∷ row float 4 (codes "c_float") (choice (some 4) (some 4))
    ∷ row float 8 (codes "c_double") (choice (some 8) (some 8))
    ∷ row float 12 (codes "c_longdouble") (choice (some 4) none)
    ∷ row float 16 (codes "c_longdouble") (choice (some 16) (some 16))
    ∷ row signed 1 (codes "c_char") (choice (some 1) (some 1))
    ∷ row signed 2 (codes "c_short") (choice (some 2) (some 2))
    ∷ row signed 4 (codes "c_int") (choice (some 4) (some 4))
    ∷ row signed 8 (codes "c_longlong") (choice (some 8) (some 8))
    ∷ row signed 16 (codes "(c_longlong * 2)") (choice none (some 16))
    ∷ row signed_char 1 (codes "c_char") (choice (some 1) (some 1))
    ∷ row unsigned 1 (codes "c_uchar") (choice (some 1) (some 1))
    ∷ row unsigned 2 (codes "c_ushort") (choice (some 2) (some 2))
    ∷ row unsigned 4 (codes "c_uint") (choice (some 4) (some 4))
    ∷ row unsigned 8 (codes "c_ulonglong") (choice (some 8) (some 8))
    ∷ row unsigned 16 (codes "(c_ulonglong * 2)") (choice none (some 16))
    ∷ row unsigned_char 1 (codes "c_uchar") (choice (some 1) (some 1))
    ∷ row decimal_float 4 (codes "c_int") (choice (some 4) (some 4))
    ∷ row decimal_float 8 (codes "c_longlong") (choice (some 8) (some 8))
    ∷ row decimal_float 16 (codes "(c_longlong * 2)") (choice (some 16) (some 16))
    ∷ []

-- `_baseTypes`: the ctype and the alignment by name.
abbrev pub base_types : List (Text × (Text × Choice))
base_types =
    (codes "long long unsigned int", (codes "c_ulonglong", choice (some 4) (some 8)))
    ∷ (codes "unsigned long long", (codes "c_ulonglong", choice (some 4) (some 8)))
    ∷ (codes "long long int", (codes "c_longlong", choice (some 4) (some 8)))
    ∷ (codes "long long", (codes "c_longlong", choice (some 4) (some 8)))
    ∷ (codes "long unsigned int", (codes "c_ulong", choice (some 4) (some 8)))
    ∷ (codes "unsigned long", (codes "c_ulong", choice (some 4) (some 8)))
    ∷ (codes "sizetype", (codes "c_ulong", choice (some 4) (some 8)))
    ∷ (codes "short unsigned int", (codes "c_ushort", choice (some 2) (some 2)))
    ∷ (codes "unsigned short", (codes "c_ushort", choice (some 2) (some 2)))
    ∷ (codes "unsigned int", (codes "c_uint", choice (some 4) (some 4)))
    ∷ (codes "unsigned char", (codes "c_ubyte", choice (some 1) (some 1)))
    ∷ (codes "char16_t", (codes "c_short", choice (some 2) (some 2)))
    ∷ (codes "signed char", (codes "c_byte", choice (some 1) (some 1)))
    ∷ (codes "char", (codes "c_char", choice (some 1) (some 1)))
    ∷ (codes "long int", (codes "c_long", choice (some 4) (some 8)))
    ∷ (codes "long", (codes "c_long", choice (some 4) (some 8)))
    ∷ (codes "int", (codes "c_int", choice (some 4) (some 4)))
    ∷ (codes "short int", (codes "c_short", choice (some 2) (some 2)))
    ∷ (codes "short", (codes "c_short", choice (some 2) (some 2)))
    ∷ (codes "__ARRAY_SIZE_TYPE__", (codes "c_ulong", choice (some 4) (some 8)))
    ∷ (codes "float", (codes "c_float", choice (some 4) (some 4)))
    ∷ (codes "_Bool", (codes "c_bool", choice (some 1) (some 1)))
    ∷ (codes "bool", (codes "c_bool", choice (some 1) (some 1)))
    ∷ (codes "double", (codes "c_double", choice (some 4) (some 8)))
    ∷ (codes "long double", (codes "c_longdouble", choice (some 4) (some 16)))
    ∷ (codes "_Float128", (codes "c_longdouble", choice (some 16) (some 16)))
    ∷ (codes "__float128", (codes "c_longdouble", choice (some 16) (some 16)))
    ∷ (codes "__int128", (codes "(c_longlong * 2)", choice none (some 16)))
    ∷ (codes "__int128 unsigned", (codes "(c_ulonglong * 2)", choice none (some 16)))
    ∷ (codes "wchar_t", (codes "c_wchar", choice (some 4) (some 4)))
    ∷ (codes "char32_t", (codes "c_int", choice (some 4) (some 4)))
    ∷ []

-- What the code reads of an entry of the debug information.
pub record Entry : Type 0 where
  pub name : Option Text
  pub encoding : Option Encoding
  pub byte_size : Option ℕ
  pub type : Option ℕ

-- An alignment, or the exception: no python ctype, or an attribute of None.
pub data Alignment : Type 0 where
  aligned : ℕ → Alignment
  no_python_ctype attribute_error out_of_fuel : Alignment

-- The lookup of a key that may have no size, which no key of the table is.
unfoldable pub find_row : Encoding → Option ℕ → List Row → Option Row
find_row encoding none rows = none
find_row encoding (some size) [] = none
find_row encoding (some size) (r ∷ rows) =
    let rest = find_row encoding (some size) rows in
    if (encoding_number r.encoding == encoding_number encoding) && (r.size == size)
    then some r
    else rest

unfoldable pub chosen : Option ℕ → Alignment
chosen none = no_python_ctype
chosen (some a) = aligned a

unfoldable pub row_alignment : Bool → Option Row → Alignment
row_alignment is_narrow none = no_python_ctype
row_alignment is_narrow (some r) = chosen (align is_narrow r.alignment)

-- The body of `alignmentFromEncoding` for an entry, with the loop's next round on its type.
unfoldable pub from_entry : Bool → (Option ℕ → Alignment) → Entry → Option Encoding → Alignment
from_entry is_narrow next e none = next e.type
from_entry is_narrow next e (some encoding) =
    row_alignment is_narrow (find_row encoding e.byte_size encodings)

-- `alignmentFromEncoding`
unfoldable pub alignment_from_encoding : (ℕ → Entry) → Bool → ℕ → Option ℕ → Alignment
alignment_from_encoding d is_narrow zero h = out_of_fuel
alignment_from_encoding d is_narrow (suc f) none = attribute_error
alignment_from_encoding d is_narrow (suc f) (some h) =
    from_entry is_narrow (alignment_from_encoding d is_narrow f) (d h) (d h).encoding

-- `name in _baseTypes`, where None is no key.
unfoldable pub named : Option Text → Option (Text × Choice)
named none = none
named (some name) = lookup name base_types

unfoldable pub named_alignment : Bool → Alignment → Option (Text × Choice) → Alignment
named_alignment is_narrow found none = found
named_alignment is_narrow found (some (ctype, c)) = chosen (align is_narrow c)

-- `baseTypeAlignment`
unfoldable pub base_type_alignment : (ℕ → Entry) → Bool → ℕ → ℕ → Alignment
base_type_alignment d is_narrow f h =
    named_alignment is_narrow (alignment_from_encoding d is_narrow f (some h)) (named (d h).name)

-- `str( size )`, with None for an absent one.
unfoldable pub size_text : Option ℕ → Text
size_text none = codes "None"
size_text (some n) = decimal n

unfoldable pub ctype_or_bytes : Option ℕ → Option (Text × Choice) → Text
ctype_or_bytes size none = codes "(c_byte * " ++ (size_text size ++ codes ")")
ctype_or_bytes size (some (ctype, c)) = ctype

-- `PrimitiveType.ctype`
unfoldable pub primitive_ctype : Entry → Text
primitive_ctype e = ctype_or_bytes e.byte_size (named e.name)
