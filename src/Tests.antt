-- ===== src/Tests.antt =====
-- Tests and the theorems at concrete inputs.
mod Services
mod Monitor
mod Cpu
mod Containers
mod Web
mod Kernel
mod Hardware
mod Devices
mod Texts
mod Agents
