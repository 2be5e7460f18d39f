-- ===== src/Examples.antt =====
-- Runs on concrete input, a module for each part.
mod Client
mod Commands
mod Connections
mod Decisions
mod Engine
mod Firewall
mod Ingress
mod Loads
mod Namespaces
mod Queries
mod Requests
mod Setups
mod Resolver
mod Streams
mod Watches
