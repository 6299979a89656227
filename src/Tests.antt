-- ===== src/Tests.antt =====
-- Test data, and the theorems at concrete inputs.
mod Data
mod Codec
mod Machine
mod Store
mod Runtime
mod Download
mod Update
mod Extract
mod Pipeline
mod Manifest
mod Recovery
mod Plugin
mod Sign
mod Assets
mod System
mod SignTool
