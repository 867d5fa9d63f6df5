-- ===== src/Lib.antt =====
-- ctypegen generates python ctypes declarations from the debug information of C and C++
-- libraries (package CTypeGen), checks them when the generated module is loaded
-- (CTypeGenRun.py), and replaces C functions by python functions in tests (package CMock).
-- This library models the python code.
--
-- How the parts work together: the generator (`Generate`) reads entries of debug information
-- (`Dwarf`), searches them for what is asked for (`Examine`), applies the user's hints
-- (`Hints`), names its types (`Names`) and renders them (`Render`), declares and defines them
-- in an order in which python can read them (`Resolve`), lays out the members of structures
-- and unions as entries of `_fields_` with explicit padding and records their offsets
-- (`Layout`), writes the types, variables and functions that were found (`Write`), and writes
-- the macros of the preprocessor as python definitions (`Macro`). A generated module checks
-- its classes against what was recorded (`Run`). The mocks (`Mock`) hook functions of the
-- libraries whose types were generated so.
--
-- Files and the code they are about:
-- - Base: lists, texts as lists of code points, tests and integers that the other files share.
-- - Dwarf: `deref`, `isVoid`, `getArrayDimensions`, `die_size` and `die_bit_offset` of
--   CTypeGen/__init__.py. An entry is a `Die`, and the debug information a function from
--   offsets to entries. Dwarf/Chains and Dwarf/Sizes have the theorems, for chains of types
--   that end.
-- - Names: `asPythonId` and `flatName` of CTypeGen/__init__.py.
-- - Layout: `Member`, `isEmptyBase`, `MemberType.findMembers` and `MemberType.define` of
--   CTypeGen/__init__.py: Layout/Members finds the members, Layout/Bits is the loop that
--   places bitfields, Layout/Fields the loop over the members with packing and trailing
--   padding, Layout/Offsets the table `_ctypegen_offsets` of `StructType.define`, and
--   Layout/Written the class as a whole; Layout/Named has the theorem on it. Layout/Loop,
--   Layout/Replay, Layout/Misplaced, Layout/Packing and Layout/Table have the theorems.
-- - Macro: Macro/Clean is `clean` of CTypeGen/expression.py, over the tokens of python's
--   tokenizer, and Macro/Callback is `MacroCallback` of CTypeGen/__init__.py; Macro/Scope,
--   Macro/Returns, Macro/Untouched and Macro/Copy have the theorems.
-- - Primitive: the tables `_baseTypeEncoding` and `_baseTypes` with `alignmentFromEncoding`,
--   `baseTypeAlignment` and `PrimitiveType.ctype` of CTypeGen/__init__.py. Primitive/Divides
--   has the theorems.
-- - Examine: how `TypeResolver` finds its types, functions and variables. Examine/Find is
--   `dieToType`, Examine/Visit is `examineDIE` and `enumerateDIEs` over the tree of entries,
--   Examine/Requests the filters of `__init__`, with Examine/Asked for names given as texts,
--   and Examine/Keys the dictionaries. Examine/Kept, Examine/Search, Examine/Complete and
--   Examine/Scopes have the theorems, over Examine/Pruned, Examine/Entries and Examine/Sound.
-- - Render: `ctype`, `size` and `alignment` of the classes of types, by the class of the type
--   object. Render/Sizes, Render/Alignments and Render/Aliases have the theorems.
-- - Resolve: `TypeResolver.declareType` and `defineType` of CTypeGen/__init__.py, with the
--   methods `declare` and `define` of the classes of types. A type object is a number,
--   `resolve` is the two wrappers, which call one another through the methods, and what is
--   written is a list of the statements' contents. Resolve/Needs says what a type needs,
--   Resolve/Ranked when the calls end, and Resolve/Bodies and Resolve/Total have the theorems.
--   Resolve/Readable says what a statement uses: Resolve/Ordered, Resolve/Statements,
--   Resolve/Definitions and Resolve/Sequence show that it stands before the statement, and
--   Resolve/Once and Resolve/Marks that none is written twice.
-- - Enums: `EnumType.define`, which also puts the names of its values in scope for macros.
--   Enums/Bound has the theorem.
-- - Write: `TypeResolver.write`. Write defines the types of variables and functions, and then
--   those in `defineTypes`, in rounds; Write/Library is `FunctionDefType.writeLibUpdates`, and
--   Write/Globals the assignments and the class `Globals`. The theorems are in Write/Total,
--   over Write/Moves, Write/Progress and Write/Rounds, in Write/Ordered and Write/Single, and
--   in Write/Prototypes, over Write/Sorted.
-- - Hints: `applyHints` of the classes of types, and the loop of `TypeResolver.__init__` that
--   applies the hints. Hints/Rounds and Hints/Entries have the theorems.
-- - Libc: the filters of generateLibc.py and of `generateAll` of CTypeGen/__init__.py;
--   Libc/Filters has the theorems.
-- - Generate: `getDwarves`, `generate` and `generateDwarf` of CTypeGen/__init__.py, which puts
--   the search of Examine, the definitions of Write and the macros of Macro together;
--   Generate/File has the parts of the file in their order, and Generate/Defined,
--   Generate/Ordered and Generate/Macros the theorems.
-- - Run: CTypeGenRun.py. Run/Pointers and Run/Passing have the theorems, and Run/Offsets the
--   one on the check of the table that Layout/Offsets generates.
-- - Mock: Mock/Hook is CMock/__init__.py, Mock/Fake the fake system calls of CMock/helpers.py,
--   and Mock/Counted its counted calls, with the theorem on them; Mock/Syscalls its prototypes
--   of system calls; Mock/Loading the search for the shared object and for mangled names;
--   Mock/Window has those on fake calls.
-- - Each Examples file runs its part on concrete input.
--
-- Texts are lists of code points, numbers are natural numbers of any size as in python, and
-- the padding that can be negative is an integer. Errors are values: an exception of the code
-- is a constructor of the part's error type. `deref`, `die_size`, `alignmentFromEncoding`,
-- `hasPointers`, `size`, `alignment`, `ctype`, `applyHints`, `resolve`, the rounds over
-- `defineTypes` and over the hints, and the loop over bits take fuel: the chain of types, the
-- nesting of classes, a rank of the calls, the number of pointer types, the ranks of the
-- hints, or the distance to the bitfield bounds what they use. The reader of debug
-- information, the tokenizer and the parser of python, the list of its keywords, ctypes' own
-- layout and the hooks' machine code are parameters or data of the model. The text around the
-- generated definitions is not modelled: what is written is modelled as data.
--
-- Not modelled: setup.py and the command lines, which only read arguments and write files; the
-- C++ extension modules over pstack and the dynamic linker, whose answers are parameters; the
-- fixed text of a generated file, with its imports.
pub mod Base
pub mod Dwarf
pub mod Names
pub mod Layout
pub mod Primitive
pub mod Run
pub mod Mock
pub mod Macro
pub mod Examine
pub mod Render
pub mod Resolve
pub mod Enums
pub mod Write
pub mod Libc
pub mod Generate
pub mod Hints
