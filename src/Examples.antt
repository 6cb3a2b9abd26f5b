-- ===== src/Examples.antt =====
-- Small concrete states of the kernel, and the theorems at them.
mod Frames
mod Paging
mod Virtual
mod Heap
mod Large
mod Printing
mod Traps
mod Tasks
mod Rings
mod Running
mod Locking
mod Devices
mod Starting
