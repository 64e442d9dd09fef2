-- ===== src/Text.antt =====
-- Go strings: byte sequences, compared byte by byte, decoded as UTF-8 where the code asks for runes.
-- They stand for the `string` values of internal/room, with what it takes from the packages
-- strings, unicode and unicode/utf8.
mod Bytes
mod Utf8
mod Trim
mod Split
unfoldable pub use Bytes.*
unfoldable pub use Utf8.*
unfoldable pub use Trim.*
unfoldable pub use Split.*
