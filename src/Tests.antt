-- ===== src/Tests.antt =====
-- Runs of the code on concrete inputs, and each result at one of them.
mod Samples
mod Increments
mod Devices
mod Database
mod Manager
mod Creation
mod Machine
mod Startup
mod Disks
mod Snapstores
mod Api
mod Ioctl
mod Probing
mod Service
