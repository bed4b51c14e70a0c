-- ===== src/Tests.antt =====
-- Runs of the model on small inputs, and the theorems at inputs that meet their hypotheses.
mod World
mod Objects
mod Strings
mod Streams
mod Commands
mod Values
mod Tree
mod Properties
mod Verbs
mod Programs
mod Compiler
