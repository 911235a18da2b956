-- ===== src/Altivec.antt =====
-- altivec/: the allocator of 16-byte aligned memory.
pub mod VecAlloc
pub mod VecRegisters
pub mod VecContext
pub mod VecExtension
