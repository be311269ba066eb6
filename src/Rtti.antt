-- ===== src/Rtti.antt =====
-- src/offsets/rtti.cpp: the vtables of a module, found through the relocations of its typeinfos.
-- Relocations, the vftables (Candidates) and their grouping (Vtables) are in the children.
pub mod Relocations
pub mod Candidates
pub mod Vtables
mod Runs
