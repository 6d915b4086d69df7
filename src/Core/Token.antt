-- ===== src/Core/Token.antt =====
-- crates/geonosis-core/src/token.rs: authorization codes and refresh tokens. Instants are numbers on
-- one time line; a URL is its serialized text.
use geonosis.Base.{ℕ, String, Bool, Option, List}

pub data CodeChallengeMethod : Type 0 where
  s256 : CodeChallengeMethod

abbrev pub as_str : CodeChallengeMethod → String
as_str s256 = "S256"

pub record CodeChallenge : Type 0 where
  pub method : CodeChallengeMethod
  pub challenge : String

pub record CodeGrant : Type 0 where
  pub code : String
  pub realm_id : ℕ
  pub client_id : ℕ
  pub user_id : ℕ
  pub session_id : String
  pub scope : List String
  pub redirect_uri : String
  pub code_challenge : Option CodeChallenge
  pub nonce : Option String
  pub state : Option String
  pub amr : List String
  pub acr : Option String
  pub auth_time : ℕ
  pub created_at : ℕ
  pub expires_at : ℕ

pub record RefreshToken : Type 0 where
  pub id : String
  pub family_id : ℕ
  pub realm_id : ℕ
  pub client_id : ℕ
  pub user_id : ℕ
  pub session_id : String
  pub scope : List String
  pub issued_at : ℕ
  pub expires_at : ℕ
  pub used : Bool
