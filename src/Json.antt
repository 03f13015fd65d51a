-- ===== src/Json.antt =====
-- How the pages lay JSON out: `formatSchema` of SchemaDetailPage.tsx, `tryFormatJson` of
-- TopicMessagesPage.tsx and `formatResultData` of KsqlPage.tsx, all under frontend/src/pages.
-- `JSON.parse` and `JSON.stringify(…, null, 2)` are parameters.
pub mod Laws
use kafka_ui.Base.{Text}
use kafka_ui.Api.Errors.{Settled, resolved, rejected}

-- What the server sends as `unknown`: a text, or any other value of JSON.
pub data Data (Value : Type 0) : Type 0 where
  text_data : Text → Data Value
  other_data : Value → Data Value

module _ {Value : Type 0} (parse : Text → Settled Value) (stringify : Value → Text) where
  unfoldable pub format_schema : Text → Text
  format_schema raw = elim (parse raw) [ rejected e ↦ raw | resolved v ↦ stringify v ]

  unfoldable pub try_format_json : Text → Text
  try_format_json s = elim (parse s) [ resolved v ↦ stringify v | rejected e ↦ s ]

  unfoldable pub format_result_data : Data Value → Text
  format_result_data (text_data t) = elim (parse t) [ rejected e ↦ t | resolved v ↦ stringify v ]
  format_result_data (other_data v) = stringify v
