-- ===== src/Server/Match.antt =====
-- matchesQuery of cmd/server/main.go.
use audit_logging.Common.{◌∷◌, ◌++◌, ◌≡◌, Bool, true, false, not, ◌&&◌, arith, if◌then◌else◌}
use audit_logging.Text.{Text, is_empty, equal, contains}
use audit_logging.Text.Equal.{equal_iff}
use audit_logging.Text.Fold.{Unicode, to_lower, equal_fold}
use audit_logging.Server.Model.{Entry, LogQuery}
use audit_logging.Server.Codec.{Codec}

module _ (u : Unicode) (c : Codec) where
  -- strings.Join of the five parts with spaces between them, in lower case
  pub haystack : Entry → Text
  haystack e =
      let r = e.log_record in
      to_lower u (
        r.app
        ++ (b' '
            ∷ (r.level
                ++ (b' '
                    ∷ (r.message
                        ++ (b' ' ∷ (c.marshal_metadata r.metadata ++ (b' ' ∷ e.entry_hash))))))))

  unfoldable pub matches_query : Entry → LogQuery → Bool
  unfolding haystack
  matches_query e q =
      let r = e.log_record in
      if not (is_empty q.client_id) && not (equal r.client_id q.client_id)
      then false
      else if not (is_empty q.app) && not (equal_fold u r.app q.app)
      then false
      else if not (is_empty q.level) && not (equal_fold u r.level q.level)
      then false
      else if is_empty q.text
      then true
      else contains (haystack e) (to_lower u q.text)

  -- A query that names a client matches no entry of another client.
  pub matches_query-client_id :
      (e : Entry) (q : LogQuery)
      → matches_query e q ≡ true
      → is_empty q.client_id ≡ false
      → e.log_record.client_id ≡ q.client_id
  unfolding matches_query
  matches_query-client_id e q h k = ground (arith, equal_iff e.log_record.client_id q.client_id)
