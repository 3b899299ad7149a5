-- ===== src/Common/Bits.antt =====
-- The native bit operations digit by digit, at variables: single bits, disjoint fields, low
-- masks and bounds.
pub mod Step
pub mod Fields
pub mod Sets
