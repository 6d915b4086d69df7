-- ===== src/Server/NameId.antt =====
-- crates/geonosis-server/src/handlers/login_actions.rs: the persistent SAML name id of a user at a
-- service provider. A request reads the stored id first, and mints and saves one if there is none; what
-- is between the two steps is open to other requests. The text of the fresh ULID and the clock are
-- arguments.
pub mod Stable
use geonosis.Base.{ℕ, String, Option, none, some, str_append, List, [], ◌∷◌}
use geonosis.Storage.Federation.{
  Federation, SamlPersistentIdRow, get_saml_persistent_id, save_saml_persistent_id,
}

-- Whom the id is for, and what the request draws.
pub record NameIdRequest : Type 0 where
  pub realm_id : ℕ
  pub user_id : ℕ
  pub sp_entity_id : String
  pub fresh : String
  pub now : ℕ

-- `format!("g_{}", UserId::new())`
abbrev pub minted : NameIdRequest → String
minted r = str_append "g_" r.fresh

abbrev pub row_of : NameIdRequest → SamlPersistentIdRow
row_of r = record {
  realm_id = r.realm_id;
  user_id = r.user_id;
  sp_entity_id = r.sp_entity_id;
  name_id = minted r;
  created_at = r.now;
}

-- The first step: `get_saml_persistent_id`.
unfoldable pub look : NameIdRequest → Federation → Option SamlPersistentIdRow
look r t = get_saml_persistent_id r.realm_id r.user_id r.sp_entity_id t

-- The rest of the handler, on what it read.
unfoldable pub settle :
    NameIdRequest → Option SamlPersistentIdRow → Federation → Federation × String
settle r (some row) t = (t, row.name_id)
settle r none t = (save_saml_persistent_id (row_of r) t, minted r)

-- A request that runs alone.
unfoldable pub resolve_persistent_name_id : NameIdRequest → Federation → Federation × String
resolve_persistent_name_id r t = settle r (look r t) t

-- Requests one after the other.
unfoldable pub resolve_all : List NameIdRequest → Federation → Federation
resolve_all [] t = t
resolve_all (r ∷ rs) t = resolve_all rs (resolve_persistent_name_id r t).0
