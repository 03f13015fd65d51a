-- ===== src/Api/Auth.antt =====
-- The types of the requests about users and permissions, frontend/src/lib/api.ts.
use kafka_ui.Base.{Bool, Option, List, Text}

pub record OidcProviderInfo : Type 0 where
  pub name : Text
  pub display_name : Option Text

pub record AuthStatus : Type 0 where
  pub enabled : Bool
  pub types : List Text
  pub providers : Option (List OidcProviderInfo)

pub record AuthUser : Type 0 where
  pub authenticated : Bool
  pub email : Option Text
  pub name : Option Text
  pub roles : Option (List Text)

pub record LoginRequest : Type 0 where
  pub username : Text
  pub password : Text

pub record PermissionsResponse : Type 0 where
  pub actions : List Text
  pub clusters : List Text

pub record AdminUser : Type 0 where
  pub id : Text
  pub provider_name : Text
  pub external_id : Text
  pub email : Text
  pub name : Text
  pub avatar_url : Text
  pub roles : List Text
  pub last_login : Text
