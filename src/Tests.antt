-- ===== src/Tests.antt =====
-- A concrete heap, tests of the model, and the theorems at that heap.
mod Sample
mod Arenas
mod Collection
mod Lifetimes
mod Cycles
mod Parts
mod Chains
mod Derived
