-- ===== src/Script/Tests.antt =====
-- Runs of the linker script parser and of the layout rules, and the theorems at concrete inputs.
mod Expressions
mod Commands
mod Layouts
