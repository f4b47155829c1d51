-- ===== src/Codegen/Execute/Functions.antt =====
-- The code for a function definition, and for a block of them.
pub mod Parameters
pub mod Body
pub mod Definition
pub mod Programs
