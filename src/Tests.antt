-- ===== src/Tests.antt =====
-- The theorems at concrete inputs, and runs of the definitions.
mod Toy
mod Writer
mod Transactions
mod Queries
mod Settings
mod Migrations
mod Atomic
mod Opening
mod Refusals
mod Codecs
mod Columns
mod Urls
mod Macros
mod Cli
mod Anys
mod Caches
