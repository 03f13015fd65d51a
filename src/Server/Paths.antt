-- ===== src/Server/Paths.antt =====
-- That the server finds the route of a call from the path that the client sends.
use kafka_ui.Base.{◌≡◌, ◌≢◌, sym, ◌∙◌, Bool, none, some, List, [], ◌∷◌, All, Text, split}
use kafka_ui.Api.Routes.{Call, join, segments, method_of}
use kafka_ui.Api.Routes.Names.{plain_names, encoded_names}
use kafka_ui.Api.Encode.Laws.{IsUnits}
use kafka_ui.Api.Routes.Laws.{IsSegment, segments-split}
use kafka_ui.Server.{guard_of, serve}
use kafka_ui.Server.Reach.{IsAccepted, guard_of-at, guard_of-nonempty}

module _ (accepts : Text → Bool) where
  serve-join :
      (c : Call) (parts : List Text)
      → split b'/' (join parts) ≡ [] ∷ parts
      → segments c ≡ some parts
      → serve accepts (method_of c) (join parts) ≡ guard_of accepts c
  unfolding serve
  serve-join c parts cut at = rw (cut, serve) (sym (guard_of-at accepts c parts at))

  -- Each request of the client has a route on the server: its path, cut at each "/", and its method
  -- are those of a route. The names of the cluster and the topic, which are not encoded, hold no "/",
  -- the other names are of UTF-16 units, and a placeholder takes each part of the path.
  pub serve-nonempty :
      (c : Call) (parts : List Text)
      → All IsSegment (plain_names c)
      → All IsUnits (encoded_names c)
      → segments c ≡ some parts
      → IsAccepted accepts parts
      → serve accepts (method_of c) (join parts) ≢ none
  serve-nonempty c parts plain units at taken =
      let same = serve-join c parts (segments-split c parts plain units at) at in
      λ e. guard_of-nonempty accepts c parts at taken (sym same ∙ e)
