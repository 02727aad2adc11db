-- ===== src/Tests.antt =====
-- Runs on concrete data, among them one for each result that has conditions.
mod Slotted
mod Wal
mod Codec
mod Pages
mod Trees
mod Joins
