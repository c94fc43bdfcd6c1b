-- ===== src/Content/Materials.antt =====
-- The resources that projectors keep of a content item's facts: review tasks
-- (apps/content-operations/src/domain/resources.ts) and assets (asset-resource.ts).
pub mod Reviews
pub mod Assets
pub mod Worker
