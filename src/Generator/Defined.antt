-- ===== src/Generator/Defined.antt =====
-- The generator asks its printer only for variables that it has assigned.
pub mod Header
pub mod Source
