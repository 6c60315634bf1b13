-- ===== src/Tests.antt =====
-- Runs of the model at concrete inputs: tests of the definitions, and the theorems of the other
-- modules applied at inputs that meet their hypotheses.
mod Samples
mod Drivers
mod Session
mod Tripped
mod Overtaken
mod Console
mod Network
mod Discovery
mod Sketch
mod Pages
mod Board
mod Forms
mod Device
mod Strip
