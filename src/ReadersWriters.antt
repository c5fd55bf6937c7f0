-- ===== src/ReadersWriters.antt =====
-- cw09: readers and writers of one array, with writers preferred (zad1/v1) and on two semaphores
-- (zad1/v2).
pub mod Monitor
pub mod Semaphores
