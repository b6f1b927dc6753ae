-- ===== src/Tests.antt =====
-- Inputs on which the theorems are tried, and the theorems there.
mod Data
mod Crypto
mod Memory
mod Janitor
mod Page
mod Redis
mod Site
mod Suite
mod Whole
