-- ===== src/Server/Router/Writes.antt =====
-- What a write does that is answered by 201, and whom its entry is attributed to.
use audit_logging.Common.{
  ◌≡◌, inl, inr, refl, sym, ap, ◌∙◌, Bool, true, false, ◌==◌, some, ltb, arith, Bool-cases,
}
use audit_logging.Common.Int.{pos_part}
use audit_logging.Text.{Text, is_empty, utf8_size}
use audit_logging.Text.Space.{trim_space}
use audit_logging.Text.Fold.{Unicode}
use audit_logging.Server.Model.{
  unauthorized, failure, Result, ok, err, VerifyResult, LogRecord, Entry, LogQuery, LogQueryResult,
}
use audit_logging.Server.Codec.{Codec}
use audit_logging.Server.Query.{Values}
use audit_logging.Server.Auth.{Principal, bearer_token, scope_query}
use audit_logging.Server.Config.{Config}
use audit_logging.Server.Router.{
  Store, Request, Response, Route, health, logs, search, verify, method_get, with_method, admit,
  require_auth, stamp, appended, write_record, decoded, handle_write_log, queried, read_parsed,
  handle_read_logs, handle_logs, verify_answer, serve,
}

module _ {S : Type 0} (u : Unicode) (c : Codec) (cfg : Config) (store : Store S) where
  -- Only a write is answered by 201.
  abbrev is_created : Response → Bool
  is_created r = r.status == 201

  queried-is_created : (a : Result LogQueryResult) → is_created (queried a) ≡ false
  unfolding queried
  queried-is_created (err e) = refl
  queried-is_created (ok a) = refl

  read_parsed-is_created :
      (p : Principal) (values : Values) (s : S) (o : Result LogQuery)
      → is_created (read_parsed u c cfg store (some p) values s o) ≡ false
  unfolding read_parsed
  read_parsed-is_created p values s (err e) = refl
  read_parsed-is_created p values s (ok q) =
      ground (arith, queried-is_created (store.query_logs (scope_query q p values) s))

  handle_read_logs-is_created :
      (p : Principal) (r : Request) (s : S)
      → is_created (handle_read_logs u c cfg store (some p) r s) ≡ false
  unfolding handle_read_logs
  handle_read_logs-is_created p r s = read_parsed-is_created p r.values s _

  verify_answer-is_created : (a : Result VerifyResult) → is_created (verify_answer a) ≡ false
  unfolding verify_answer
  verify_answer-is_created (err e) = refl
  verify_answer-is_created (ok v) = ground arith

  admit-created :
      (a : Result Principal) (s : S) (handler : Principal → Response × S)
      → is_created (admit a (λ refused. (refused, s)) handler).0 ≡ true
      → (p : Principal) × (a ≡ ok p) × ((admit a (λ refused. (refused, s)) handler) ≡ handler p)
  unfolding admit
  admit-created (err unauthorized) s handler h = absurd (ground arith)
  admit-created (err (failure why)) s handler h = absurd (ground arith)
  admit-created (ok p) s handler h = (p, refl, refl)

  require_auth-created :
      (authenticate : Text → Result Principal) (r : Request) (s : S)
      (handler : Principal → Response × S)
      → is_created (require_auth u authenticate r (λ refused. (refused, s)) handler).0 ≡ true
      → (p : Principal) × (authenticate (bearer_token u r.authorization) ≡ ok p)
        × (require_auth u authenticate r (λ refused. (refused, s)) handler ≡ handler p)
  unfolding require_auth
  require_auth-created authenticate r s handler h =
      elim (Bool-cases (is_empty (bearer_token u r.authorization))) [
        | inl e ↦ absurd (ground arith)
        | inr e ↦
            rw e (
              admit-created (authenticate (bearer_token u r.authorization)) s handler
                (ground arith))
      ]

  handle_logs-created :
      (p : Principal) (r : Request) (s : S)
      → is_created (handle_logs u c cfg store (some p) r s).0 ≡ true
      → handle_logs u c cfg store (some p) r s ≡ handle_write_log u c cfg store (some p) r s
  unfolding handle_logs
  handle_logs-created p r s h = ground (arith, handle_read_logs-is_created p r s)

  abbrev search_handler : Request → S → Principal → Response × S
  search_handler r s p =
      with_method method_get r (λ refused. (refused, s))
        (handle_read_logs u c cfg store (some p) r s, s)

  abbrev verify_handler : Request → S → Principal → Response × S
  verify_handler r s p =
      with_method method_get r (λ refused. (refused, s)) (verify_answer (store.verify s), s)

  -- A handler of the protected routes that is answered by 201 is the one of writes.
  serve-created :
      (authenticate : Text → Result Principal) (route : Route) (r : Request) (s : S)
      → is_created (serve u c cfg store authenticate route r s).0 ≡ true
      → (p : Principal) × (authenticate (bearer_token u r.authorization) ≡ ok p)
        × (serve u c cfg store authenticate route r s ≡ handle_write_log u c cfg store (some p) r s)
  unfolding serve with_method
  serve-created authenticate health r s h = absurd (ground arith)
  serve-created authenticate logs r s h =
      let (p, a, e) =
        require_auth-created authenticate r s (λ p. handle_logs u c cfg store (some p) r s) h in
      (
        p,
        a,
        e ∙ handle_logs-created p r s (ground (arith, ap (λ (x : Response × S). is_created x.0) e)),
      )
  serve-created authenticate search r s h =
      let (p, a, e) = require_auth-created authenticate r s (search_handler r s) h in
      absurd (
        ground
          (arith, ap (λ (x : Response × S). is_created x.0) e, handle_read_logs-is_created p r s))
  serve-created authenticate verify r s h =
      let (p, a, e) = require_auth-created authenticate r s (verify_handler r s) h in
      absurd (
        ground (
          arith,
          ap (λ (x : Response × S). is_created x.0) e,
          verify_answer-is_created (store.verify s),
        ))

  -- What a write that is answered by 201 did.
  pub record Wrote (authenticate : Text → Result Principal) (r : Request) (s s' : S) : Type 0 where
    pub principal : Principal
    pub authenticated : authenticate (bearer_token u r.authorization) ≡ ok principal
    pub attributed : is_empty principal.client_id ≡ false
    pub fits : ltb (pos_part cfg.max_payload_bytes) (utf8_size r.body) ≡ false
    pub input : LogRecord
    pub parsed : c.unmarshal_record r.body ≡ ok input
    pub filled :
        (is_empty (trim_space input.app) ≡ false)
        × (is_empty (trim_space input.level) ≡ false)
        × (is_empty (trim_space input.message) ≡ false)
    pub kept : LogRecord
    pub kept_client_id : kept.client_id ≡ principal.client_id
    pub kept_app : kept.app ≡ trim_space input.app
    pub kept_level : kept.level ≡ trim_space input.level
    pub kept_message : kept.message ≡ trim_space input.message
    pub entry : Entry
    pub stored : store.append kept s ≡ (ok entry, s')

  appended-created :
      (a : Result Entry × S)
      → is_created (appended a).0 ≡ true
      → (e : Entry) × (a ≡ (ok e, (appended a).1))
  unfolding appended
  appended-created (err e, s) h = absurd (ground arith)
  appended-created (ok e, s) h = (e, refl)

  abbrev Filled : LogRecord → Type 0
  Filled input =
      (is_empty (trim_space input.app) ≡ false)
      × (is_empty (trim_space input.level) ≡ false)
      × (is_empty (trim_space input.message) ≡ false)

  write_record-created :
      (p : Principal) (input : LogRecord) (s : S)
      → is_created (write_record u c cfg store (some p) input s).0 ≡ true
      → (is_empty p.client_id ≡ false)
        × Filled input
        × (write_record u c cfg store (some p) input s ≡ appended (store.append (stamp p input) s))
  unfolding write_record stamp
  write_record-created p input s h =
      (ground arith, (ground arith, ground arith, ground arith), ground arith)

  decoded-created :
      (p : Principal) (o : Result LogRecord) (s : S)
      → is_created (decoded u c cfg store (some p) o s).0 ≡ true
      → (input : LogRecord) × (o ≡ ok input)
        × (decoded u c cfg store (some p) o s ≡ write_record u c cfg store (some p) input s)
  unfolding decoded
  decoded-created p (err e) s h = absurd (ground arith)
  decoded-created p (ok input) s h = (input, refl, refl)

  handle_write_log-created :
      (p : Principal) (r : Request) (s : S)
      → is_created (handle_write_log u c cfg store (some p) r s).0 ≡ true
      → (ltb (pos_part cfg.max_payload_bytes) (utf8_size r.body) ≡ false)
        × (handle_write_log u c cfg store (some p) r s
            ≡ decoded u c cfg store (some p) (c.unmarshal_record r.body) s)
  unfolding handle_write_log
  handle_write_log-created p r s h = (ground arith, ground arith)

  -- A write that is answered by 201 was made by an authenticated caller, and the store took up a
  -- record with that caller's id, whatever id the body names, and with the trimmed application, level
  -- and message of the body, none of them empty.
  pub serve-Wrote :
      (authenticate : Text → Result Principal) (route : Route) (r : Request) (s s' : S)
      (response : Response)
      → serve u c cfg store authenticate route r s ≡ (response, s')
      → response.status ≡ 201
      → Wrote authenticate r s s'
  unfolding stamp
  serve-Wrote authenticate route r s s' response h n =
      let (p, a, at) = serve-created authenticate route r s (created_at (sym h)) in
      let (fits, at1) = handle_write_log-created p r s (created_at (sym h ∙ at)) in
      let (input, parsed, at2) =
        decoded-created p (c.unmarshal_record r.body) s (created_at (sym h ∙ at ∙ at1)) in
      let (attributed, filled, at3) =
        write_record-created p input s (created_at (sym h ∙ at ∙ at1 ∙ at2)) in
      let all = sym h ∙ at ∙ at1 ∙ at2 ∙ at3 in
      let (entry, stored) = appended-created (store.append (stamp p input) s) (created_at all) in
      record {
        principal = p;
        authenticated = a;
        attributed = attributed;
        fits = fits;
        input = input;
        parsed = parsed;
        filled = filled;
        kept = stamp p input;
        kept_client_id = refl;
        kept_app = refl;
        kept_level = refl;
        kept_message = refl;
        entry = entry;
        stored = stored ∙ ap (λ (x : S). (ok entry, x)) (sym (ap (λ (x : Response × S). x.1) all));
      }
    where
      created_at : {x : Response × S} → (response, s') ≡ x → is_created x.0 ≡ true
      created_at e = ground (arith, ap (λ (x : Response × S). is_created x.0) e)
