-- ===== src/Order.antt =====
-- Total orders as an interface, and the order of texts that `BTreeMap<String, _>` uses.
-- A Rust `String` is modelled by its code points: comparing its UTF-8 bytes is comparing those.
mod Defs
mod Lexicographic
pub use Defs.*
unfoldable pub use Lexicographic.*
mod Pairs
unfoldable pub use Pairs.*
