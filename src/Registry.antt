-- ===== src/Registry.antt =====
-- manager/component_registry.py: the component registry, its look-ups and the dependency order.
pub mod Components
pub mod Closure
pub mod Order
pub mod Reach
pub mod Minimal
pub mod Fuel
pub mod Counting
pub mod Members
pub mod Kahn
pub mod Topology
pub mod Edges
pub mod DependencyOrder
pub mod Guarantees
pub mod Samples
