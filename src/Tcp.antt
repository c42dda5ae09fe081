-- ===== src/Tcp.antt =====
-- TCP, src/lib/tcp/tcp.c.
pub mod Socket
pub mod Send
pub mod Machine
pub mod States
pub mod Diagram
pub mod Calls
pub mod Link
pub mod Handshake
pub mod Transfer
pub mod Exchange
pub mod Close
pub mod Sockets
pub mod Lookup
pub mod Binding
pub mod Bound
pub mod Traffic
pub mod Distinct
pub mod Silent
pub mod Order
mod Tests
use liquorice.Base.{ℕ}
