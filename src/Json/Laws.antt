-- ===== src/Json/Laws.antt =====
-- That laying JSON out twice is laying it out once.
use kafka_ui.Base.{◌≡◌, refl, ap, Text}
use kafka_ui.Api.Errors.{Thrown, Settled, resolved, rejected}
use kafka_ui.Json.{text_data, other_data, format_schema, try_format_json, format_result_data}

module _ {Value : Type 0} (parse : Text → Settled Value) (stringify : Value → Text) where
  format_of_invalid :
      (t : Text) (e : Thrown) → parse t ≡ rejected e → format_schema parse stringify t ≡ t
  unfolding format_schema
  format_of_invalid t e invalid = rw (invalid, format_schema) refl

  format_of_valid :
      (t : Text) (v : Value) → parse t ≡ resolved v → format_schema parse stringify t ≡ stringify v
  unfolding format_schema
  format_of_valid t v valid = rw (valid, format_schema) refl

  -- The three functions agree on a text.
  format_same :
      (t : Text)
      → (try_format_json parse stringify t ≡ format_schema parse stringify t)
        × (format_result_data parse stringify (text_data t) ≡ format_schema parse stringify t)
  unfolding format_schema try_format_json format_result_data
  format_same t = by_result (parse t)
    where
      by_result :
          (r : Settled Value)
          → ((elim r [ resolved v ↦ stringify v | rejected e ↦ t ])
              ≡ (elim r [ rejected e ↦ t | resolved v ↦ stringify v ]))
            × ((elim r [ rejected e ↦ t | resolved v ↦ stringify v ])
                ≡ (elim r [ rejected e ↦ t | resolved v ↦ stringify v ]))
      by_result (resolved v) = (refl, refl)
      by_result (rejected e) = (refl, refl)

  -- Laying out what has been laid out changes nothing, be it JSON or not, if `JSON.parse` reads what
  -- `JSON.stringify` writes; and a value is laid out as its text is.
  format_stable :
      ((v : Value) → parse (stringify v) ≡ resolved v)
      → (t : Text) (v : Value)
      → (format_schema parse stringify (format_schema parse stringify t)
          ≡ format_schema parse stringify t)
        × (format_result_data parse stringify (text_data (stringify v))
            ≡ format_result_data parse stringify (other_data v))
  unfolding format_result_data
  format_stable reads t v = (by_result (parse t) refl, rw (format_result_data, reads v) refl)
    where
      by_result :
          (r : Settled Value)
          → parse t ≡ r
          → format_schema parse stringify (format_schema parse stringify t)
            ≡ format_schema parse stringify t
      by_result (resolved w) at =
          rw (format_of_valid t w at) (format_of_valid (stringify w) w (reads w))
      by_result (rejected e) at = ap (format_schema parse stringify) (format_of_invalid t e at)
