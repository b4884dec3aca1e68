-- ===== src/Map.antt =====
-- `BTreeMap` and `BTreeSet` of the Rust standard library, as lists of entries in the order of the
-- keys. A lookup walks the entries and stops at the first key that is not smaller.
mod Defs
mod Lookup
mod Sums
mod Ordered
unfoldable pub use Defs.*
pub use Lookup.*
pub use Sums.*
pub use Ordered.*
