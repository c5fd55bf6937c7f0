-- ===== src/BarberShop.antt =====
-- cw07/zad1/barber.c and clients.c: one barber and any number of clients, separate processes that
-- share a queue and three System V semaphores.
pub mod State
pub mod Barber
pub mod Client
pub mod System
pub mod Invariant
pub mod Rounds
pub mod Safety
pub mod Posix
mod Tests
