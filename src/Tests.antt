-- ===== src/Tests.antt =====
-- The theorems of the development at concrete inputs.
mod Formats
mod Plans
mod Scopes
mod Indexes
mod Json
mod Archives
mod Merges
mod Contribs
mod Histories
mod Registry
mod Strings
