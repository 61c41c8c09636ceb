-- ===== src/Tests.antt =====
-- The theorems at concrete inputs, and runs of the definitions.
mod Algebra
mod Kernel
mod Identity
mod Work
mod Queue
mod Git
mod Pack
mod Rebase
mod Revset
mod Store
mod Autorebase
mod Transfers
mod Gate
