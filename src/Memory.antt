-- ===== src/Memory.antt =====
-- The bytes of one mapped page file, as include/yijinjing/journal reads and writes them: an
-- address is an offset from the start of the mapping, a field of a packed struct is a
-- little-endian run of bytes (ADDRESS_ADD of YJJ_DECLARE.h, the casts of Frame.hpp and Page.cpp).
mod Defs
mod Laws
unfoldable pub use Defs.*
pub use Laws.*
