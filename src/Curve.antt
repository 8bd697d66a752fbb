-- ===== src/Curve.antt =====
-- programs/cp-swap/src/curve and the rounding of utils/math.rs: the arithmetic of the pool.
-- The definitions are in `Math`, `Fees`, `ConstantProduct` and `Calculator`.
pub mod Math
pub mod Fees
pub mod ConstantProduct
pub mod Calculator
