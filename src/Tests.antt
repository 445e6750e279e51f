-- ===== src/Tests.antt =====
-- Runs of the definitions on concrete inputs, and the theorems at such inputs.
mod Inputs
mod Runs
mod Scans
mod Maps
mod Tables
mod Folding
mod Passes
mod Graphs
mod Jumps
mod Parsing
