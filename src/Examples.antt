-- ===== src/Examples.antt =====
-- Runs of the model on concrete inputs, and its theorems applied to such.
mod Machine
mod Memory
mod Virtual
mod Calls
mod Tables
mod Console
mod Files
mod Scheduling
mod Users
