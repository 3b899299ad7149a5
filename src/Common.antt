-- ===== src/Common.antt =====
-- What the models share: the library's names, passed on, tests on numbers, arrays as functions, rings of bytes,
-- bit operations and machine words.
pub mod Tests
pub mod Arrays
pub mod Ring
pub mod Bits
pub mod Word
