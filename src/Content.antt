-- ===== src/Content.antt =====
-- apps/content-operations/src: the Content Operations application's content items.
pub mod Types
pub mod Schema
pub mod ReviewSchema
pub mod StateSchema
pub mod Facts
pub mod Projections
pub mod Resource
pub mod Recovery
pub mod Publishing
pub mod Lifecycle
pub mod Materials
pub mod Editorial
