-- ===== src/Acl/Tests.antt =====
-- The ACL page on a session.
use kafka_ui.Base.{
  ◌≡◌, refl, true, List, [], ◌∷◌, All, codes, includes, starts_with, text_eq, arith,
}
use kafka_ui.Api.Bodies.{AclEntry}
use kafka_ui.Api.Errors.{resolved}
use kafka_ui.Api.Routes.{acl_create, acl_delete}
use kafka_ui.ListPage
use kafka_ui.ListPage.{
  Rights, Event, fetched, create_opened, edited, submitted, create_settled, delete_clicked,
  confirmed, filtered, on_confirm, create, create_settles,
}
use kafka_ui.Search.{is_match}
use kafka_ui.Acl.{
  initial_entry, AclEdit, resource_type_chosen, resource_name_typed, edit_entry, entry_of,
  is_acl_match, acl_page, run,
}
use kafka_ui.Acl.Laws.{IsAclCall, run-IsAclCall}

abbrev entry : AclEntry
entry = record initial_entry { principal = codes "User:ann"; resource_name = codes "orders" }

abbrev everything : Rights
everything = record { creates = true; deletes = true }

abbrev session : List (Event AclEntry AclEdit)
session =
    fetched (resolved (entry ∷ []))
    ∷ create_opened
    ∷ edited (resource_name_typed (codes "typed before"))
    ∷ edited (resource_type_chosen 2)
    ∷ edited (resource_name_typed (codes "hidden"))
    ∷ submitted
    ∷ create_settled (resolved tt)
    ∷ delete_clicked 0
    ∷ confirmed
    ∷ []

session_calls :
    (run (λ t. t) (codes "c") everything session).calls
    ≡ acl_delete (codes "c") entry
      ∷ acl_create (codes "c") (record initial_entry { resource_type = codes "CLUSTER" })
      ∷ []
unfolding ListPage.run ListPage.act filtered on_confirm create create_settles is_match is_acl_match
    edit_entry entry_of acl_page includes starts_with text_eq
session_calls = refl

run-IsAclCall_example :
    All
      (IsAclCall (codes "c") everything (λ (d : AclEntry). d ≡ entry))
      (run (λ t. t) (codes "c") everything session).calls
run-IsAclCall_example =
    run-IsAclCall (codes "c") everything (λ d. d ≡ entry) (λ t. t) session ((refl, tt), omega arith)
