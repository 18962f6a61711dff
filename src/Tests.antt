-- ===== src/Tests.antt =====
-- Runs of the models at concrete inputs, some of them taken from firmware/test, and the theorems
-- applied at such inputs.
mod Samples
mod Records
mod Storage
mod Updates
mod Frames
mod Diagnosis
mod Images
mod Network
mod Streams
mod Relay
mod Light
mod Setup
mod Slots
mod Settings
mod Upgrade
mod Characters
mod Connection
mod Session
mod Channel
mod Hosts
