-- ===== src/Tests.antt =====
-- Concrete runs of the theorems.
mod Memory
mod Tasks
mod Devices
mod Exceptions
mod Boot
mod LongBoot
mod Start
mod Tables
mod LongTables
mod Paging
mod LongPaging
