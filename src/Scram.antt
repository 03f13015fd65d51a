-- ===== src/Scram.antt =====
-- frontend/src/pages/UsersPage.tsx: SCRAM credentials.
pub mod Laws
pub mod Tests
use kafka_ui.Base.{
  ℕ, Bool, true, ◌&&◌, Option, none, some, List, [], ◌∷◌, get_elem?, Text, codes, truthy, ℤ, pos,
  parse_int_radix_10,
}
use kafka_ui.Api.Bodies.{UpsertScramUserRequest, DeleteScramUserRequest}
use kafka_ui.Api.Errors.{resolved}
use kafka_ui.Api.Routes.{Call, users_create, users_delete}
use kafka_ui.ListPage
use kafka_ui.ListPage.{Shape, Rights, Page, Event, initial_page}
use kafka_ui.Search.{is_match}

pub record ScramUser : Type 0 where
  pub name : Text
  pub mechanism : Text
  pub iterations : ℕ

abbrev pub scram_mechanisms : List Text
scram_mechanisms = codes "SCRAM-SHA-256" ∷ codes "SCRAM-SHA-512" ∷ []

pub record ScramForm : Type 0 where
  pub name : Text
  pub password : Text
  pub mechanism : Text
  pub iterations : Text

abbrev pub initial_form : ScramForm
initial_form = record {
  name = [];
  password = [];
  mechanism = codes "SCRAM-SHA-256";
  iterations = codes "4096";
}

pub data ScramEdit : Type 0 where
  name_typed password_typed iterations_typed : Text → ScramEdit
  mechanism_chosen : ℕ → ScramEdit

unfoldable pub edit_form : ScramEdit → ScramForm → ScramForm
edit_form (name_typed v) f = record f { name = v }
edit_form (password_typed v) f = record f { password = v }
edit_form (iterations_typed v) f = record f { iterations = v }
edit_form (mechanism_chosen i) f = elim (get_elem? scram_mechanisms i) [
  | none ↦ f
  | some m ↦ record f { mechanism = m }
]

-- `parseInt(t, 10)`, or 4096 for NaN.
unfoldable pub iterations_of : Text → ℤ
iterations_of t = elim (parse_int_radix_10 t) [ none ↦ pos 4096 | some n ↦ n ]

unfoldable pub create_request : ScramForm → UpsertScramUserRequest
create_request f = record {
  name = f.name;
  password = f.password;
  mechanism = f.mechanism;
  iterations = some (some (iterations_of f.iterations));
}

abbrev pub delete_request : ScramUser → DeleteScramUserRequest
delete_request u = record { name = u.name; mechanism = u.mechanism }

module _ (to_lower_case : Text → Text) (cluster : Text) where
  unfoldable pub scram_page : Shape ScramUser ScramForm ScramEdit ScramUser
  scram_page = record {
    matches = λ search u. is_match to_lower_case search u.name;
    initial = initial_form;
    edit = edit_form;
    is_complete = λ f. truthy f.name && truthy f.password;
    submit = λ f. resolved (users_create cluster (create_request f));
    target = λ u. some u;
    delete = λ u. users_delete cluster (delete_request u);
    waits = true;
  }

  abbrev pub act :
      Rights
      → Page ScramUser ScramForm ScramUser
      → Event ScramUser ScramEdit
      → Page ScramUser ScramForm ScramUser
  act r p e = ListPage.act scram_page r p e

  -- The page after some events, from when it is opened.
  abbrev pub run : Rights → List (Event ScramUser ScramEdit) → Page ScramUser ScramForm ScramUser
  run r es = ListPage.run scram_page r (initial_page scram_page) es
