-- ===== src/Base/Bits.antt =====
-- The bit operations at variables, from their recursion on binary digits: one digit at a time, then
-- masks, fields side by side, and the algebra of exclusive or.
mod Step
mod Fields
mod Xor
pub use Step.{bit_and_step, bit_or_step, bit_xor_step}
pub use Fields.*
pub use Xor.*
