-- ===== src/Tests.antt =====
-- The theorems at concrete inputs, and runs of the model.
mod Versions
mod Rows
mod Filters
mod Locks
mod Logs
mod Transactions
mod Pages
mod Tokens
mod Expressions
mod Columns
