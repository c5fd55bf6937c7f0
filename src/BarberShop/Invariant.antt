-- ===== src/BarberShop/Invariant.antt =====
-- Who holds QUEUE, what the value of BARBER says, and where each client that waits is recorded.
pub mod Defs
pub mod Safe
pub mod BarberMoves
mod Owed
mod Turn
pub mod ClientMoves
