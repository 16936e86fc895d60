-- ===== src/Buffer.antt =====
-- src/buffer.cpp and include/buffer.hpp: the buffer and its modules. `State` holds the fields and the
-- growth of the vector, `Compare` the order of keys, `Entry` the bytes of a key and a value, `Search`
-- the walk of `get_impl`, `Split` the two node splits, `Insert` and `Update` the two ends of a write,
-- `Set` the loop of `set_impl`, `Object` and `Array` the public operations.
pub mod State
pub mod Compare
pub mod Entry
pub mod Search
pub mod Split
pub mod Insert
pub mod Update
pub mod Set
pub mod Object
pub mod Tree
pub mod Array
pub mod Shows
pub mod Map
