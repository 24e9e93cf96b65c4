-- ===== src/Lib.antt =====
-- A model of the CatLa virtual machine: its heap allocator and garbage collector, its interpreter and
-- orders, the parser of its module texts, and the lock and bit set that they use.
--
-- The parts and their files. A path of the repository stands in brackets.
-- * Heap [src/heap/HeapAllocator.h, src/heap/HeapAllocator.cpp]. Heap/Object.antt has `HeapObject` and the
--   memory, a function from the address of an object's header. Heap/Layout.antt is `create_heap_chunk`:
--   thirteen runs of blocks in one `calloc`. Heap/Chunk.antt is `HeapChunk::malloc`, Heap/SizeClass.antt the
--   choice of a class in `HeapAllocator::malloc`, and Heap/Allocator.antt the rest of it, with
--   `create_new_chunk` and the constructor. Their children hold the proofs.
-- * Util [src/util/Concurrent.h, src/vm/modules/util/BitSet.h]. Util/RwLock.antt is `RWLock`, one event for
--   each access of its count; Util/BitSet.antt is the bit set.
-- * Vm [src/vm]. Vm/PrimitiveType.antt and Vm/Modules.antt are the data; Vm/Machine.antt is the state of
--   `CatVM::run_function`; Vm/Orders.antt with its children Add and Fields is `eval` of every order, and
--   Vm/Link.antt is `link`; Vm/Run.antt is the loop of `run_function`.
-- * Parser [src/vm/parser/VMParser.cpp]. Parser/Regex.antt matches the patterns that the parser uses,
--   Parser/Lines.antt and Parser/Tokens.antt read lines and their parts, Parser/Orders.antt is `parse_order`,
--   `parse_orders` and `parse_label_blocks`, Parser/Rows.antt what the sections of a module text share, and
--   Parser/Sections.antt the sections for imports, types and type definitions, and Parser/Functions.antt
--   that for functions, Parser/Consts.antt that for constants, and Parser/Whole.antt is `parse`.
-- * Gc [src/gc/GC.h, src/gc/GC.cpp, src/CatLa.cpp]. Gc/Counts.antt is the counting of references and the
--   release of what has none left; Gc/Collect.antt with Gc/Collect/Phases.antt is `gc_collect`;
--   Gc/Fields.antt has the functions of CatLa.cpp that read and write fields and count the references.
--   Gc/Ledger.antt is the account that the proofs keep: which objects are in use, which references to them
--   are held outside the heap, and what stands on a stack to be released. Gc/Balance.antt says it of the
--   objects that are live. The children hold the proofs.
-- * Base has the helpers that these share. The modules Tests hold runs on concrete input.
--
-- How the parts meet: an order that makes an object calls the allocator of its thread (`allocate` in
-- Vm/Orders.antt), and the field orders work on the memory that the allocator fills; the parser makes the
-- orders that `link` completes and the loop runs.
--
-- Conventions. Numbers are natural numbers, with the wrap of 64 bits written out where the code can
-- reach it. Undefined behaviour is a value: a fault of the machine, or `undefined` in the parser,
-- where the model stops; but a signed sum that overflows wraps, as on the machine. An access past
-- `field_length` is undefined behaviour in the model, though the program has no test for it and
-- reaches the next block. The sizes of a chunk do not wrap, since it is made with 1024 cells. What the
-- source does not define is a parameter: the address that `calloc` returns for each chunk, what
-- `std::stod` answers, whether there is room for the array of a section, whether a type is cyclic,
-- what stands above a 32-bit local, and what other threads do while a lock is waited for.
--
-- Fuel. `HeapChunk::malloc` has thirteen rounds, one for each class. `HeapAllocator::malloc` needs two
-- rounds, since a new chunk serves every request that has a class. The loops of the parser need one round
-- more than the code has bytes. The loop of the interpreter need not end; a straight block needs as much
-- fuel as it has orders. A release needs as many rounds as there are live objects, and the phases of the
-- collector one more than twice as many. A wait has a number of rounds, and comes to `waiting` when they
-- are used up.
--
-- Not modelled: the loader `CatVM::load_module` with the linking of types; the experiments of
-- [src/CatLa.cpp]; and the helpers for the stack, for strings and for times. The allocator and the
-- collector are run by one thread at a time, and their spin locks are not steps. The order in which an
-- `unordered_set` is gone through is a parameter.
pub mod Base
pub mod Heap
pub mod Util
pub mod Vm
pub mod Parser
pub mod Gc
