-- ===== src/Examples.antt =====
-- The theorems at concrete inputs, by part of the program.
mod Channels
mod Rtsp
mod Sessions
mod Media
mod Web
mod Publishing
mod Tables
mod Players
