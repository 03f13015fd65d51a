-- ===== src/Api/Tests.antt =====
-- The client's theorems on concrete calls.
use kafka_ui.Base.{
  ◌≡◌, ◌↔◌, refl, true, false, none, some, List, [], ◌∷◌, Text, codes, split, arith,
}
use kafka_ui.Api.Errors.{Thrown, error_object}
use kafka_ui.Api.Encode.{encode_uri_component}
use kafka_ui.Api.Request.{Response, Reply, replied, value, request}
use kafka_ui.Api.Routes.{Call, groups_reset, topics_list, join, segments}
use kafka_ui.Api.Routes.Laws.{segments-split}
use kafka_ui.Api.Routes.Reloads.{is_login, request-reloads_iff}

abbrev reset : Call
reset =
    groups_reset (codes "c") (codes "a/b")
      (record { topic = codes "t"; reset_to = codes "earliest" })

abbrev reset_parts : List Text
reset_parts =
    codes "clusters" ∷ codes "c" ∷ codes "consumer-groups" ∷ codes "a%2Fb" ∷ codes "reset" ∷ []

reset_at : segments reset ≡ some reset_parts
unfolding segments encode_uri_component
reset_at = refl

segments-split_example : split b'/' (join reset_parts) ≡ [] ∷ reset_parts
segments-split_example =
    segments-split reset reset_parts ((refl, tt), tt)
      ((omega arith, (omega arith, (omega arith, tt))), tt) reset_at

abbrev unauthorized : Reply
unauthorized =
    replied (record { status = 401; status_text = codes "Unauthorized"; json = value none })

abbrev null_error : Thrown
null_error = error_object (codes "TypeError") (codes "error of null")

topics_at :
    segments (topics_list (codes "c")) ≡ some (codes "clusters" ∷ codes "c" ∷ codes "topics" ∷ [])
unfolding segments
topics_at = refl

request-reloads_iff_example :
    ((request null_error
        (join (codes "clusters" ∷ codes "c" ∷ codes "topics" ∷ []))
        unauthorized).reloads
      ≡ true)
    ↔ ((is_login (topics_list (codes "c")) ≡ false)
        × ((r : Response) × (unauthorized ≡ replied r) × (r.status ≡ 401)))
request-reloads_iff_example =
    request-reloads_iff null_error (topics_list (codes "c"))
      (codes "clusters" ∷ codes "c" ∷ codes "topics" ∷ []) unauthorized topics_at
