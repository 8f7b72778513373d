-- ===== src/Crypto.antt =====
-- The contributions of the ceremony: common/src.
pub mod Curve
pub mod Attempt
pub mod MultipairingEquation
pub mod BlsSok
pub mod PowersOfTau
pub mod HidingKzg
pub mod Fptx
pub mod Aptos
pub mod Contribution
