-- ===== src/Authoring.antt =====
-- operator_authoring: virtual contracts of an operator, and the compiler that checks one against the
-- catalog of its source.
pub mod Texts
pub mod Model
pub mod Plans
pub mod Compiler
