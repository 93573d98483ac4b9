-- ===== src/Examples.antt =====
-- Concrete trees and nodes, the runs of the operations on them, and the laws at these inputs.
mod Data
mod Trees
mod Nodes
mod Leaves
mod Iteration
mod Scans
mod Settings
mod Storage
mod Counting
mod Mains
