-- ===== src/Scram/Tests.antt =====
-- The page for SCRAM credentials on a session.
use kafka_ui.Base.{
  ◌≡◌, refl, true, some, List, [], ◌∷◌, Text, codes, pos, parse_int_radix_10, trim_start, is_space,
  includes, starts_with,
}
use kafka_ui.Api.Bodies.{DeleteScramUserRequest}
use kafka_ui.Api.Errors.{resolved}
use kafka_ui.Api.Routes.{users_create, users_delete}
use kafka_ui.ListPage
use kafka_ui.ListPage.{
  Rights, Event, fetched, search_typed, create_opened, edited, submitted, create_settled,
  delete_clicked, confirmed, filtered, on_confirm, create, create_settles,
}
use kafka_ui.Search.{is_match}
use kafka_ui.Scram.{
  ScramUser, ScramEdit, name_typed, password_typed, iterations_typed, mechanism_chosen, edit_form,
  iterations_of, create_request, scram_page, run,
}

-- The radix is given, so that "0x10" is 0 and not 16.
hexadecimal : (iterations_of (codes "0x10") ≡ pos 0) × (iterations_of (codes "0") ≡ pos 0)
unfolding iterations_of parse_int_radix_10 trim_start is_space
hexadecimal = (refl, refl)

abbrev scram_user : Text → ScramUser
scram_user name = record { name = name; mechanism = codes "SCRAM-SHA-256"; iterations = 4096 }

abbrev everything : Rights
everything = record { creates = true; deletes = true }

abbrev session : List (Event ScramUser ScramEdit)
session =
    fetched (resolved (scram_user (codes "ann") ∷ scram_user (codes "bob") ∷ []))
    ∷ create_opened
    ∷ edited (name_typed (codes "eve"))
    ∷ submitted
    ∷ edited (password_typed (codes "pw"))
    ∷ edited (iterations_typed (codes "1e4"))
    ∷ edited (mechanism_chosen 1)
    ∷ submitted
    ∷ submitted
    ∷ create_settled (resolved tt)
    ∷ search_typed (codes "b")
    ∷ delete_clicked 0
    ∷ confirmed
    ∷ []

session_calls :
    (run (λ t. t) (codes "c") everything session).calls
    ≡ users_delete (codes "c") (record { name = codes "bob"; mechanism = codes "SCRAM-SHA-256" })
      ∷ users_create (codes "c") (record {
        name = codes "eve";
        password = codes "pw";
        mechanism = codes "SCRAM-SHA-512";
        iterations = some (some (pos 1));
      })
      ∷ []
unfolding ListPage.run ListPage.act filtered on_confirm create create_settles is_match edit_form
    create_request iterations_of scram_page includes starts_with parse_int_radix_10 trim_start
    is_space
session_calls = refl

abbrev IsKnown : DeleteScramUserRequest → Type 0
IsKnown d = d.mechanism ≡ codes "SCRAM-SHA-256"
