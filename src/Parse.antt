-- ===== src/Parse.antt =====
-- internal/parse: certificates, their stores and chains, Java keystores, PEM and PKCS#12.
pub mod Certificate
pub mod Chain
pub mod Keystore
pub mod Pem
