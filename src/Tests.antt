-- ===== src/Tests.antt =====
-- Runs of the model on concrete inputs, and each theorem applied to one.
mod World
mod Frames
mod Service
mod Releases
mod Others
mod Windows
mod Clients
mod Devices
