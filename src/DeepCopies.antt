-- ===== src/DeepCopies.antt =====
-- The copies of api/v1/zz_generated.deepcopy.go, which the cache of the client makes of its Dags, over a
-- heap. `Memory` is the heap with the copies, `Values` what an object is worth, `Copied` and `Apart`
-- are about the copies.
pub mod Memory
pub mod Values
pub mod Copied
pub mod Apart
