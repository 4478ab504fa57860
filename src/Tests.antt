-- ===== src/Tests.antt =====
-- Runs of the theorems on concrete inputs.
mod Ids
mod Lists
mod Tables
mod Stream
mod Peers
mod Sent
mod States
mod Transfers
mod Friends
mod Profiles
mod Sessions
