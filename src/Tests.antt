-- ===== src/Tests.antt =====
-- A small card library, store and round, and what the theorems say of them.
mod Table
mod Memory
mod Rounds
mod Requests
mod Stored
mod Accounts
mod Limits
mod Votes
mod Web
mod Sockets
mod Servers
mod Audit
mod Ticks
mod Users
