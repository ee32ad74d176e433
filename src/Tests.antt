-- ===== src/Tests.antt =====
-- Concrete inputs, and the theorems at them.
mod Samples
mod Wait
mod Store
mod Lab
mod Actions
mod Release
mod Machines
mod Network
mod Commands
mod Rpc
mod Create
mod Qemu
mod Distributions
mod Images
mod Texts
