-- ===== src/Examples.antt =====
-- Concrete inputs at which the theorems of the library apply.
mod Memory
mod Input
mod Devices
mod Processes
mod Text
mod Pages
mod Tables
mod Programs
mod Handlers
