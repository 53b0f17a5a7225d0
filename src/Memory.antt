-- ===== src/Memory.antt =====
-- memory.rs: the `Memory` trait and `SimpleMemory`. Addresses are `u64`; `addr + n` wraps, as it
-- does in a release build. `as uN` is `% 2 ^ N`, and `<<` drops the bits above its type.
mod Access
mod LittleEndian
mod Combine
mod Laws
mod Simple
pub use Access.*
unfoldable pub use LittleEndian.*
pub use Laws.*
unfoldable pub use Simple.*
