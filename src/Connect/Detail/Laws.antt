-- ===== src/Connect/Detail/Laws.antt =====
-- "Edit" and "Save" on ConnectorDetailPage.tsx.
use kafka_ui.Base.{◌≡◌, refl, ap, ◌∙◌, true, false, ◌||◌, some, ◌∷◌, any, Text, codes, arith}
use kafka_ui.Api.Errors.{Thrown, Settled, resolved, rejected}
use kafka_ui.Api.Messages.{Headers}
use kafka_ui.Api.Bodies.{Json, object_json, text_fields}
use kafka_ui.Connect.Detail.{
  ConnectorDetail, update, is_update, loaded, DetailPage, DetailEvent, edit_clicked, edit_closed,
  save_clicked, shown_error, open_edit_dialog, handle_save_config, act,
}

module _ (parse : Text → Settled Json) (stringify : Headers → Text)
    (to_upper_case : Text → Text) where
  abbrev does : DetailPage → DetailEvent → DetailPage
  does = act parse stringify to_upper_case

  act-edit_clicked :
      (p : DetailPage) (c : ConnectorDetail)
      → p.left ≡ false
      → p.view ≡ loaded c
      → (p.edit_open || p.delete_open) ≡ false
      → does p edit_clicked ≡ open_edit_dialog stringify c p
  unfolding act
  act-edit_clicked p c here shown free = ground arith

  act-save_clicked :
      (p : DetailPage) (c : ConnectorDetail)
      → p.left ≡ false
      → p.view ≡ loaded c
      → p.edit_open ≡ true
      → any is_update p.pending ≡ false
      → does p save_clicked ≡ handle_save_config parse p
  unfolding act
  act-save_clicked p c here shown opened quiet = ground arith

  act-edit_closed :
      (p : DetailPage) (c : ConnectorDetail)
      → p.left ≡ false
      → p.view ≡ loaded c
      → p.edit_open ≡ true
      → does p edit_closed ≡ record p { edit_open = false }
  unfolding act
  act-edit_closed p c here shown opened = ground arith

  -- "Edit" and "Save" with nothing typed in between send the configuration as it is shown, if
  -- `JSON.parse` reads back what `JSON.stringify` wrote.
  pub edited_saved :
      (p : DetailPage) (c : ConnectorDetail)
      → p.left ≡ false
      → p.view ≡ loaded c
      → (p.edit_open || p.delete_open) ≡ false
      → any is_update p.pending ≡ false
      → parse (stringify c.config) ≡ resolved (object_json (text_fields c.config))
      → (act parse stringify to_upper_case
          (act parse stringify to_upper_case p edit_clicked)
          save_clicked).calls
        ≡ update (object_json (text_fields c.config)) ∷ p.calls
  unfolding open_edit_dialog handle_save_config
  edited_saved p c here shown free quiet round_trip = rw (act-edit_clicked p c here shown free) (
      rw (act-save_clicked (open_edit_dialog stringify c p) c here shown refl quiet)
        (rw (handle_save_config, round_trip) refl))

  invalid_save :
      (p : DetailPage) (e : Thrown)
      → parse p.config_json ≡ rejected e
      → handle_save_config parse p
        ≡ record p { config_error = some (codes "Invalid JSON configuration") }
  unfolding handle_save_config
  invalid_save p e invalid = rw (handle_save_config, invalid) refl

  -- The message about a text that is no JSON stays when the dialog is closed, and is shown when it
  -- is opened again with the configuration as it is, although that is well formed.
  pub reopened_shows_error :
      (p : DetailPage) (c : ConnectorDetail) (e : Thrown)
      → p.left ≡ false
      → p.view ≡ loaded c
      → p.edit_open ≡ true
      → p.delete_open ≡ false
      → any is_update p.pending ≡ false
      → parse p.config_json ≡ rejected e
      → parse (stringify c.config) ≡ resolved (object_json (text_fields c.config))
      → let q =
          act parse stringify to_upper_case
            (act parse stringify to_upper_case
              (act parse stringify to_upper_case p save_clicked)
              edit_closed)
            edit_clicked in
        (shown_error q ≡ some (codes "Invalid JSON configuration"))
        × (q.edit_open ≡ true)
        × (parse q.config_json ≡ resolved (object_json (text_fields c.config)))
  unfolding open_edit_dialog
  reopened_shows_error p c e here shown opened alone quiet invalid round_trip =
      let after_save : DetailPage = record p {
        config_error = some (codes "Invalid JSON configuration");
      } in
      let after_close : DetailPage = record after_save { edit_open = false } in
      let steps =
        ap (λ x. does (does x edit_closed) edit_clicked)
          (act-save_clicked p c here shown opened quiet ∙ invalid_save p e invalid)
        ∙ (ap (λ x. does x edit_clicked) (act-edit_closed after_save c here shown opened)
            ∙ act-edit_clicked after_close c here shown alone) in
      rw steps (refl, refl, round_trip)
