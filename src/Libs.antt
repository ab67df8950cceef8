-- ===== src/Libs.antt =====
-- libs: the data structures and strings that the kernel and the programs share.
pub mod Hash
pub mod Ring
pub mod Strings
