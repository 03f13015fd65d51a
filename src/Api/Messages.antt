-- ===== src/Api/Messages.antt =====
-- The types of the requests about messages, frontend/src/lib/api.ts.
use kafka_ui.Base.{ℕ, Option, List, Text, ℤ}

-- Record<string, string>, in insertion order.
abbrev pub Headers : Type 0
Headers = List (Text × Text)

pub record MessageRecord : Type 0 where
  pub partition : ℕ
  pub offset : ℕ
  pub timestamp : Text
  pub key : Text
  pub value : Text
  pub headers : Option Headers
  pub key_format : Option Text
  pub value_format : Option Text

pub record ProduceRequest : Type 0 where
  pub key : Text
  pub value : Text
  pub partition : Option ℕ
  pub headers : Option Headers

-- A number is `none` where it is NaN.
pub record BrowseParams : Type 0 where
  pub partition : Option (Option ℤ)
  pub offset : Option Text
  pub limit : Option (Option ℤ)
  pub timestamp : Option Text
  pub filter : Option Text
