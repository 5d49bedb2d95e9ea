-- ===== src/Tests.antt =====
-- Concrete worlds, and the theorems about the program applied in them.
mod Samples
mod Memory
mod Disk
mod Requests
mod Storing
mod Web
mod Host
mod Daemon
mod Logs
mod Accounts
mod Sudo
