-- ===== src/Heap.antt =====
-- The C heap as the library's files use it: malloc, calloc, realloc, strdup and free.
-- A block is known by its address. What a block holds is kept in the value that owns the block,
-- and the heap keeps which blocks are allocated, so a leak and a double free both show.
mod Defs
pub mod Returns
pub mod Moves
unfoldable pub use Defs.*
