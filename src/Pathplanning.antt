-- ===== src/Pathplanning.antt =====
-- The planning of a path round obstacles, bot-logic/behaviour_pathplanning.c: a wave of numbers that
-- runs from the target over a coarse map, and its way back. Coordinates are 16-bit words, the fields
-- 8-bit words. The build is the one for the PC: 96 fields of 128 mm along each axis.
pub mod Lowres
pub mod Wave
pub mod Follow
mod Fields
mod Queue
mod Step
mod Zeros
mod Reached
mod Rounds
mod Ends
mod WayBack
mod Blank
mod Tests
