-- ===== src/Crypto.antt =====
-- components/crypto: checksums and message digests.
pub mod Crc
pub mod Md5
pub mod Sha256
pub mod Blocks
