-- ===== src/Tests.antt =====
-- Concrete runs of the modelled code, and the theorems at concrete inputs.
mod Data
mod Plugins
mod Nodes
mod Loggers
mod Managers
mod Links
mod Handshakes
mod Servers
mod Clocks
mod Systems
mod Agents
