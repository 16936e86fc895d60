-- ===== src/Tests.antt =====
-- Runs of the code on concrete inputs, and the theorems at concrete inputs.
mod Full
mod Filled
mod Whole
mod Large
mod Handles
mod Objects
mod Parts
mod Runs
mod Trees
