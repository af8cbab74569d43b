-- ===== src/Map.antt =====
-- The map of map.c and its header include/map.h: the fields of the floor round the robot, one signed
-- byte each, in blocks of the map's file, of which one is in memory.
pub mod Place
pub mod Sdfat
pub mod Store
mod Address
mod Cache
mod Section
pub mod Fields
pub mod Access
mod Flush
pub mod Update
mod Client
mod Saturate
mod Circle
mod Occupied
mod Line
pub mod World
pub mod Ray
pub mod Ratio
pub mod Average
mod Clear
mod RayLine
mod WayFree
mod Passage
mod Faults
pub mod Thread
mod Holes
mod Saved
mod Mean
mod Collect
mod Disk
mod Tests
