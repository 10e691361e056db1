-- ===== src/Connector.antt =====
-- Connectors to other systems: the interfaces of internal/connector/interface.go. `Registry` is
-- internal/connector/registry.go. The types of the Kubernetes client's unstructured objects and of
-- the state of a cloud service are parameters.
mod Registry
pub mod Registrations
unfoldable pub use Registry.*
