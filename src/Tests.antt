-- ===== src/Tests.antt =====
-- The tests: concrete runs, and each theorem with hypotheses at a concrete input.
mod Data
mod Binding
mod Executor
mod Schema
mod Catalog
mod Policy
mod Proxy
mod Syntax
mod Sql
mod Backend
mod Boundary
mod Persist
