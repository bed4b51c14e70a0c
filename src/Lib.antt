-- ===== src/Lib.antt =====
-- A model of the core of the waverous MOO server: the values of its language with their arithmetic,
-- equality and list operations, the string routines under them, the table of objects with its
-- properties and verbs, the reading of a player's command down to the objects it names, and the
-- generation of the code of a verb.
--
-- The parts and how they interact. The server keeps one table of objects (server/db_objects.c). An
-- object stands in two forests at once, the one of locations and the one of parents, and each is
-- stored as singly linked lists through object numbers in the objects themselves: `contents` and
-- `next`, `child` and `sibling`. Properties (server/db_properties.c) and verbs (server/db_verbs.c) are
-- inherited: both are looked for on the way up from an object through its parents. An object has an
-- array with a value for each property that it or an ancestor defines, in the order of that way, and a
-- clear value stands for the parent's. Lookups of verbs go through a cache, which every function that
-- could make an entry wrong empties. The commands of the language change the table only by the
-- functions of these files. A command line (server/parse_cmd.c) is split into words, a preposition is
-- looked for among them (server/db_verbs.c), and the words around it name objects (server/match.c) by
-- their name and their property `aliases`. Values (server/structures.h) are compared by `equality` and
-- tested by `is_true` of server/utils.c; the operators of the language call server/numbers.c and
-- server/list.c on them; and verb and property names are compared by the text routines of
-- server/utils.c. The program of a verb is a syntax tree (server/ast.h) that server/code_gen.c turns
-- into vectors of bytes, one for the verb and one for each fork, with a table of literals for all: it
-- emits the instructions (server/opcode.h) with a placeholder of one byte for every reference, notes
-- the place of each in a list of fixups, and widens the placeholders at the end to what the references
-- need, so that every label moves. It plans the depth of the stack as it goes.
--
-- The files:
--   Base            the native numbers, the integers over them, Boolean tests, lists (all files)
--   Text            bytes and C strings: `cmap`, `mystrcasecmp`, `mystrncasecmp`, `str_hash`
--     Text.Compare    what these compare and hash
--     Text.Verbs      `verbcasecmp`, loop by loop; Text.VerbSpec the rule of the manual for the
--                     names of a verb; Text.VerbNames compares the two
--     Text.Search     `strsub`, `strindex`, `strrindex`; Text.SearchLaws what they find
--     Text.Binary     `raw_bytes_to_binary`, `binary_to_raw_bytes`; Text.BinaryLaws their laws
--   Streams         the growing buffers and `itoa` of server/streams.c; Streams.Laws and
--                   Streams.Digits their laws
--   Values          `struct Var` of server/structures.h
--   Numbers         `do_add`, `do_subtract`, `do_multiply`, `do_divide`, `do_modulus`, `do_power`,
--                   `compare_numbers` of server/numbers.c; Numbers.Power, Numbers.Division and
--                   Numbers.Quotients their laws; Numbers.Shorts the fields of 16 bits
--   Equality        `equality` and `is_true` of server/utils.c; Equality.Laws what it decides
--   Lists           the list operations of server/list.c; Lists.Laws and Lists.Members
--                   their laws
--   Database        `Object` of server/db_private.h and the static variables of server/db_objects.c
--                   and server/db_verbs.c
--     Database.Run      commands: a function of the table that ends with a result and a table, in a
--                       panic, in a read of an object that is not there, or out of fuel
--     Database.Links    LL_REMOVE and LL_APPEND, for either pair of link fields
--     Database.Objects  the functions of server/db_objects.c other than the next
--     Database.Renumber `db_renumber_object`
--     Database.Chains, Wiring, Splice, Rewired, Holds   linked lists in the table: a list of
--                       numbers that the links spell out, and what the macros make of it
--     Database.Location, Database.Creation   the theorems on moves and on new objects
--     Database.Visits   counting and visiting the children or the contents of an object
--     Database.Flags    the flags and the list of users
--     Database.Up       the way up from an object; Database.Family the tree of its descendants
--   Properties      counting properties and `db_find_property` of server/db_properties.c
--     Properties.Handles   value, owner and flags through a handle
--     Properties.Change    adding, renaming and deleting a definition
--     Properties.Chparent  the values after a change of parent, and `db_change_parent` of
--                       server/db_objects.c
--     Properties.Found, Below, Written, Renamed   the theorems on lookups, on names that are taken,
--                       on values that are set, and on new names
--   Verbs           definitions and lookups of server/db_verbs.c, without its cache
--     Verbs.Handles     names, owner, flags, program and argument specifications through a handle
--     Verbs.Cache       `db_find_callable_verb` with the cache; Verbs.Stats its statistics
--     Verbs.Callable    the search that the cache stands for; Verbs.Same what it depends on
--     Verbs.Addresses   when the comparison of addresses makes no difference to a lookup
--     Verbs.Coherent, Answers   what the entries of the cache must say, and that they do
--     Verbs.Views, Effects, Steps   what the functions on verbs leave of the cache
--     Verbs.ArgSpecs    the argument specifications of a verb, packed into its bits
--     Verbs.Preps       the table of prepositions and the search for one; Verbs.PrepNames,
--                       Verbs.PrepFront and Verbs.PrepPlaces their laws
--   Commands        `parse_into_words` and `build_string` of server/parse_cmd.c; Commands.Quoting and
--                   Commands.Ends their laws
--     Commands.Match    server/match.c
--     Commands.Parse    `parse_command` of server/parse_cmd.c; Commands.Around how it divides the
--                       arguments
--   Compiler        the code generator, server/code_gen.c
--     Compiler.Ast, Opcodes   the trees of server/ast.h, the instructions of server/opcode.h
--     Compiler.State    the state of the generator and its monad, bytes and fixups
--     Compiler.Refs     literals, variables, labels, the depth of the stack, loops
--     Compiler.Targets  what an assignment stores to; Compiler.Exprs `generate_expr` and the
--                       functions that it recurs with
--     Compiler.Loops    loops and the ways out of them; Compiler.Stmts `generate_stmt` and
--                       `stmt_to_code`; Compiler.Programs `generate_code`
--     Compiler.Vector   the last part of `stmt_to_code`, and READ_BYTES of server/execute.c
--     Compiler.Sound    the invariant of a state; Compiler.Valid which trees the parser gives
--     Compiler.Moves, Depths, Steps, Literals   runs that take a sound state of one depth to one of another,
--                       and the steps as such runs
--     Compiler.SafeTargets, SafeExprs, SafeStmts, SafeBodies, SafePrograms, Safety   assignments,
--                       expressions, statements, forks and programs as such runs
--     Compiler.Sizes, Landing, Chains, Interning, RoundTrips   the length of a vector, the places of
--                       labels, their chains, the table of literals, and what is read back
--   Tests           runs on concrete input
--
-- How code became definitions. An `int32` is an integer whose sums, differences and products are
-- reduced to 32 bits in two's complement; where the machine would trap, the result is `none`. The
-- `short` fields of a verb keep 16 bits of what they are given. A C
-- string is the list of its bytes. A pointer to an object is its number, and a read of a number with
-- no object is a fault. A pointer to the value of a property is the object and the place in its array,
-- and a handle of a verb is the definer and the place among its verbs; a read outside the array is a
-- fault. Memory that malloc hands out is an argument, with whatever it holds, so that a field that the
-- code does not set stays as it was. A double is its bit pattern, and the machine's operations on
-- doubles are fields of the record `Floats`. A buffer is the text that it holds and its size, and a
-- write behind its end has no result; neither has a size that overflows its `int`, nor a digit that
-- `itoa` would write in front of its static buffer, as it would in radix 2 or 3 (`stream_printf` calls
-- it with 8, 10 and 16). Where `verbcasecmp` compares the addresses of its arguments, the functions
-- that lead to it take as an argument for which verbs the word is the string of the names itself. `strtol` of the C library and `null_program` of
-- server/program.c are arguments of the functions that call them; a program is a pointer that the
-- model never looks behind.
--
-- The code generator is a function of its state with a result or a panic. Its counters are numbers
-- without a bound, as they count things that fit in memory; a stack depth below zero wraps around as
-- in the code, UINT_MAX in `saved_stack` and the `-1` of a label or a name are `none`, and the labels
-- that the code stores in the tree are results of functions. A function that gets another's code as an
-- argument stands for one that calls it there, so that the recursion is structural.
--
-- Loops and fuel. Loops over a text or a list are structural where the code goes on by one item. The
-- loops of `verbcasecmp`, `strsub` and `parse_into_words` have the length of their text as fuel, the
-- one of `do_power` 32 rounds, as its exponent has at most 31 bits, the one of `itoa` ends where its
-- buffer does, and the ones over linked lists and
-- on the way up one more than the number of objects, as each object stands at most once there. The walk along a chain of labels has the number of
-- fixups, as each link goes to an earlier one. A recursion through the descendants of an object has twice that number, as it enters each object once
-- and leaves each list of children once. A result without enough fuel is a value of its own.
--
-- Not modelled: the builtins that check permissions before they call the parts above, tasks, the
-- virtual machine other than READ_BYTES, the parser and the decompiler, the database file and the
-- network. Sharing of values and reference counts are not visible: lists and strings are immutable in the language, and the operations that
-- update in place do so only if they hold the only reference. Of the functions of the files above,
-- `db_object_bytes` and `db_log_cache_stats` are left out, as the one adds up sizes in memory and the
-- other prints; the parts of server/code_gen.c under BYTECODE_REDUCE_REF are, since
-- server/options.h leaves it off; and so is `stream_printf`, which takes a variable number of arguments.
pub mod Base
pub mod Text
pub mod Streams
pub mod Values
pub mod Numbers
pub mod Equality
pub mod Lists
pub mod Database
pub mod Properties
pub mod Verbs
pub mod Commands
pub mod Compiler
pub mod Tests
