-- ===== src/Tests.antt =====
-- Concrete runs of the program, and the instances of the theorems at them.
mod Sample
mod Scene
mod Instances
mod Ticks
mod Opening
mod Handover
mod Histories
