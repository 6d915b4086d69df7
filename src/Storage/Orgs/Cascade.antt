-- ===== src/Storage/Orgs/Cascade.antt =====
-- Deleting an organization in crates/geonosis-storage/src/memory.rs.
use geonosis.Base.{nat_eq, string_eq, pair_eq}
use geonosis.Core.Organization.{Organization}
use geonosis.Storage.Orgs.{Orgs}
