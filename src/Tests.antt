-- ===== src/Tests.antt =====
-- Runs of the model, and each theorem at a concrete input.
mod Tank
mod Swap
mod Scan
mod Walk
mod Command
mod Whole
mod OutPath
mod Sac
mod SacHeader
mod Mseed
mod Gaps
mod Main
mod Noise
mod Conversion
