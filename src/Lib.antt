-- ===== src/Lib.antt =====
-- lite3-cpp: a document store in one byte buffer. Objects and arrays are B-trees of 96-byte nodes, and
-- keys and values are entries appended to the buffer. Beside it stand a hash ring for distributing
-- keys over servers, the hexadecimal text of byte strings, and the routing of log messages.
--
-- The files and the code they are about:
--   Base           numbers of fixed width, Boolean tests, bits and lists, on natural numbers.
--   Memory         the bytes of `std::vector<uint8_t>`, little-endian words, `memcpy`, `memset` and
--                  `resize`; Laws and Frame say what a write changes and keeps.
--   Outcome        what a call ends with: a result, an exception with its message, undefined
--                  behaviour, or no fuel left.
--   Node           include/node.hpp and include/config.hpp: `Type` is Tag, and the accessors of
--                  `NodeView` and `MutableNodeView` read and write the words of a node in memory.
--   Hash           src/utils/hash.cpp and `fnv1a_64` of include/lite3/ring.hpp.
--   Hex            src/utils/hex.cpp, and the digits that src/json.cpp prints.
--   Buffer         src/buffer.cpp. State has the fields of `Buffer`, `ensure_capacity` and
--                  `init_structure`; Compare `compare_node_key`; Entry the bytes of keys and values;
--                  Search `get_impl`; Split, Insert, Update and Set the parts of `set_impl`, a round
--                  of its loop being `set_round`; Object and Array the public operations.
--                  Tree is the abstract view of the nodes below a root: Held says how a tree lies in
--                  memory, Tidy that its nodes meet neither each other nor the entries, Order that
--                  its search is the search in the list of its entries, Grows what a step of `set_impl`
--                  may do to it, and Even that its leaves lie on one level. Set/Puts, Visit, Arrive and
--                  Descend follow the loop down such a tree, and Refines has the whole call. Map hides
--                  the tree behind the sorted list of its entries, and Shows is what the getters need.
--   Iterator       src/iterator.cpp, with `begin` and `end` of src/buffer.cpp; Frames, Step and
--                  Walk are about the stack and the walk over a tree, Stale about a buffer that changes.
--   Json           src/json.cpp: Parse is `from_json_string`, Print `to_json_string`, and the record
--                  Yyjson what they use of the library yyjson, which is a parameter.
--   Value          src/value.cpp, src/array.cpp, src/object.cpp and src/document.cpp.
--   Ring           include/lite3/ring.hpp, `ConsistentHash`.
--   Observability  src/observability.cpp and `log_if_enabled` of include/observability.hpp.
--   Tests          runs on concrete inputs.
--
-- How they interact: Value calls Object and Array, these call `set_impl` and `get_impl` of Set and
-- Search with hashes from Hash, and those work on the words of Node in the bytes of Memory. A buffer is
-- passed in and out in place of the mutable object; a handle's pointer to its buffer is the buffer
-- beside it. A `double` and an `int64_t` are their eight bytes, as `memcpy` moves them. Sizes and
-- addresses are natural numbers, since a `size_t` does not wrap on a buffer in memory; hashes, node
-- words and lengths that are stored in 32 bits wrap as in the code.
--
-- The loops of `get_impl` and `set_impl` run on `rounds b` rounds, two for each used byte and four
-- more: a round goes down a level or splits a node, so a tree of `h` levels takes at most 2 * h + 2
-- rounds, and a tree has fewer levels than its buffer has bytes. The theorems on whole calls state that
-- the call returns, so the rounds are enough. A round of `set_impl` also takes one of the sixteen places
-- of the array `path`, which the code does not test: the model is undefined where none is left. A tree of
-- eight levels takes no more than sixteen, and an object or array of fewer than 4^8 - 1 entries has no
-- more than eight levels. Where a list of keys or strings is put (`room_for`), each of them is reckoned
-- to need 99 bytes for every level that there could be, so that no more than about nine thousand fit
-- below 2^32.
--
-- A read or a write outside the vector is not undefined in the model: there a read finds some byte,
-- and a write changes it. So the theorems on `get_impl` and `set_impl` suppose nodes and entries that
-- lie in memory, and those on `set_impl` that they lie in the used bytes, where the accesses are inside.
--
-- The leaves of Search/Leaf and Insert/Leaf are the abstract view of a node without children: a list
-- of entries (key, address, type, data), `lookup` as the search and `insert_at` as the insertion.
-- Object/Many, Object/Fill, Array/Many and Array/Fill have the view of a client: a list of keys with
-- strings, and a list of strings. Above a single leaf the theorems ask for keys of different hashes: a
-- split compares hashes only, so of two keys with one hash the second may be put on the wrong side.
--
-- An iterator is passed its buffer beside it, and its stack is a list. The loop over an iterator has
-- fuel for its items, and the theorem on it asks for more than the tree has entries; an iterator's
-- stack has ten places, so the trees it walks have at most ten levels. The fuel of Json bounds the
-- depth of a document, and in Print also the number of an object's members.
--
-- Not modelled: the latency and counters of `ScopedMetric`, the messages to the logger but for those
-- of Observability (the one of a split goes to the logger without the threshold), what is written into
-- the array `path` of `set_impl`, which is never read, the calls of yyjson that allocate and free, the
-- tests, the benchmark, the examples and the scripts.
pub mod Base
pub mod Buffer
pub mod Hash
pub mod Hex
pub mod Iterator
pub mod Json
pub mod Memory
pub mod Node
pub mod Observability
pub mod Outcome
pub mod Ring
pub mod Tests
pub mod Value
