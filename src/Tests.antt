-- ===== src/Tests.antt =====
-- The theorems at concrete inputs: 128-bit numbers and rewards, transactions, and blocks.
mod Data
mod Numbers
mod Payments
mod Chain
mod Stakes
mod Table
mod Codec
mod Fork
mod Growth
