-- ===== src/Server/Router/Reads.antt =====
-- What a caller gets to see through the routes that read.
use audit_logging.Common.{
  ℕ, zero, suc, [], List, ◌∷◌, ◌≡◌, inl, inr, refl, sym, subst, ap, ◌∙◌, Bool, true, false, Option,
  none, some, arith, All, All-map, take, drop, select, Bool-cases,
}
use audit_logging.Common.Int.{pos_part}
use audit_logging.Text.{Text, is_empty}
use audit_logging.Text.Fold.{Unicode}
use audit_logging.Server.Model.{
  Result, ok, err, VerifyResult, LogRecord, Entry, LogQuery, LogQueryResult, ok_injective,
}
use audit_logging.Server.Codec.{Codec}
use audit_logging.Server.Match.{matches_query, matches_query-client_id}
use audit_logging.Server.Window.{window}
use audit_logging.Server.Query.{Values, parse_log_query}
use audit_logging.Server.Auth.{Principal, is_admin, bearer_token, scope_query}
use audit_logging.Server.Config.{Config}
use audit_logging.Server.FileStore.{FileStore, AppendEnv, append, scan_lines}
use audit_logging.Server.FileStore.Verify
use audit_logging.Server.FileStore.Query.{query_logs}
use audit_logging.Server.FileStore.Query.Laws.{Reads, query_logs_correct}
use audit_logging.Server.Router.{
  Store, Request, Response, Body, page, write_json, Route, health, logs, search, verify,
  with_method, admit, require_auth, stamp, appended, write_record, decoded, handle_write_log,
  queried, read_parsed, handle_read_logs, handle_logs, verify_answer, serve,
}

-- The entries that carry this client's id.
abbrev pub AllOf : Text → List Entry → Type 0
AllOf client_id es = All (λ e. e.log_record.client_id ≡ client_id) es

-- A store that answers a query for one client with entries of that client only.
abbrev pub Confined : {S : Type 0} → Store S → S → Type 0
Confined {S} store s =
    (q : LogQuery) (result : LogQueryResult)
    → is_empty q.client_id ≡ false
    → store.query_logs q s ≡ ok result
    → AllOf q.client_id result.items

module _ {S : Type 0} (u : Unicode) (c : Codec) (cfg : Config) (store : Store S) where
  page-injective : {a b : LogQueryResult} → page a ≡ page b → a ≡ b
  page-injective h = cc

  scope_lem :
      (q : LogQuery) (p : Principal) (values : Values)
      → is_admin p ≡ false
      → (scope_query q p values).client_id ≡ p.client_id
  unfolding scope_query
  scope_lem q p values h = rw h refl

  abbrev is_page : Body → Bool
  is_page (page result) = true
  is_page _ = false

  not_page :
      {o : Response × S} {s : S} {result : LogQueryResult}
      → o ≡ (write_json 200 (page result), s)
      → is_page o.0.body ≡ true
  not_page h = rw h refl

  verify_answer-is_page : (a : Result VerifyResult) → is_page (verify_answer a).body ≡ false
  unfolding verify_answer
  verify_answer-is_page (err e) = refl
  verify_answer-is_page (ok v) = ground arith

  appended-is_page : (a : Result Entry × S) → is_page (appended a).0.body ≡ false
  unfolding appended
  appended-is_page (err e, s) = refl
  appended-is_page (ok e, s) = refl

  write_record-is_page :
      (p : Option Principal) (input : LogRecord) (s : S)
      → is_page (write_record u c cfg store p input s).0.body ≡ false
  unfolding write_record
  write_record-is_page none input s = refl
  write_record-is_page (some p) input s =
      ground (arith, appended-is_page (store.append (stamp p input) s))

  decoded-is_page :
      (p : Option Principal) (o : Result LogRecord) (s : S)
      → is_page (decoded u c cfg store p o s).0.body ≡ false
  unfolding decoded
  decoded-is_page p (err e) s = refl
  decoded-is_page p (ok input) s = write_record-is_page p input s

  handle_write_log-is_page :
      (p : Option Principal) (r : Request) (s : S)
      → is_page (handle_write_log u c cfg store p r s).0.body ≡ false
  unfolding handle_write_log
  handle_write_log-is_page p r s = ground (arith, decoded-is_page p (c.unmarshal_record r.body) s)

  -- A page comes from the handler of reads, for the caller that the token stands for.
  serve-page :
      (authenticate : Text → Result Principal) (route : Route) (r : Request) (s s' : S)
      (p : Principal) (result : LogQueryResult)
      → authenticate (bearer_token u r.authorization) ≡ ok p
      → serve u c cfg store authenticate route r s ≡ (write_json 200 (page result), s')
      → handle_read_logs u c cfg store (some p) r s ≡ write_json 200 (page result)
  unfolding serve require_auth admit with_method handle_logs
  serve-page authenticate health r s s' p result a h = absurd (ground (arith, not_page h))
  serve-page authenticate verify r s s' p result a h =
      absurd (ground (arith, verify_answer-is_page (store.verify s), not_page h))
  serve-page authenticate search r s s' p result a h = ground (arith, not_page h)
  serve-page authenticate logs r s s' p result a h =
      ground (arith, handle_write_log-is_page (some p) r s, not_page h)

  queried-page :
      (a : Result LogQueryResult) (result : LogQueryResult)
      → queried a ≡ write_json 200 (page result)
      → a ≡ ok result
  unfolding queried
  queried-page (err e) result h = absurd (ground (arith, ap (λ (x : Response). x.status) h))
  queried-page (ok a) result h = ap ok (page-injective (ap (λ (x : Response). x.body) h))

  read_parsed-page :
      (p : Principal) (values : Values) (s : S) (o : Result LogQuery) (result : LogQueryResult)
      → read_parsed u c cfg store (some p) values s o ≡ write_json 200 (page result)
      → (q : LogQuery) × (is_empty p.client_id ≡ false)
        × (store.query_logs (scope_query q p values) s ≡ ok result)
  unfolding read_parsed
  read_parsed-page p values s (err e) result h =
      absurd (ground (arith, ap (λ (x : Response). x.status) h))
  read_parsed-page p values s (ok q) result h = elim (Bool-cases (is_empty p.client_id)) [
    | inl e ↦ absurd (ground (arith, ap (λ (x : Response). x.status) h))
    | inr e ↦ (q, e, queried-page _ result (ground arith))
  ]

  -- A caller that is no administrator gets to see nothing but its own entries, by either of the
  -- routes that read, whatever its request says, if the store confines its answers.
  pub serve-Confined :
      (authenticate : Text → Result Principal) (route : Route) (r : Request) (s s' : S)
      (p : Principal) (result : LogQueryResult)
      → Confined store s
      → authenticate (bearer_token u r.authorization) ≡ ok p
      → is_admin p ≡ false
      → serve u c cfg store authenticate route r s ≡ (write_json 200 (page result), s')
      → AllOf p.client_id result.items
  unfolding read_parsed handle_read_logs
  serve-Confined authenticate route r s s' p result k a n h =
      let (q, filled, answer) =
        read_parsed-page p r.values s (parse_log_query u r.values cfg.query) result
          (serve-page authenticate route r s s' p result a h) in
      subst (λ (id : Text). AllOf id result.items) (scope_lem q p r.values n)
        (k (scope_query q p r.values) result (rw (scope_lem q p r.values n) filled) answer)

-- The file store behind that interface, for one request.
unfoldable pub file_store : Unicode → Codec → AppendEnv → Store FileStore
file_store u c env = record {
  append = append c env;
  verify = Verify.verify c;
  query_logs = λ q s. query_logs u c s q;
}

All-select :
    (P : Entry → Type 0) (p : Entry → Bool) (es : List Entry) → All P es → All P (select p es)
All-select P p [] a = tt
All-select P p (e ∷ es) (a, b) = elim (Bool-cases (p e)) [
  | inl h ↦ rw h (a, All-select P p es b)
  | inr h ↦ rw h (All-select P p es b)
]

select-All : (p : Entry → Bool) (es : List Entry) → All (λ e. p e ≡ true) (select p es)
select-All p [] = tt
select-All p (e ∷ es) = elim (Bool-cases (p e)) [
  | inl h ↦ rw h (h, select-All p es)
  | inr h ↦ rw h (select-All p es)
]

All-take : (P : Entry → Type 0) (n : ℕ) (es : List Entry) → All P es → All P (take n es)
All-take P zero es a = tt
All-take P (suc n) [] a = tt
All-take P (suc n) (e ∷ es) (a, b) = (a, All-take P n es b)

All-drop : (P : Entry → Type 0) (n : ℕ) (es : List Entry) → All P es → All P (drop n es)
All-drop P zero es a = a
All-drop P (suc n) [] a = tt
All-drop P (suc n) (e ∷ es) (a, b) = All-drop P n es b

-- The file store is such a store, if it can read its file.
pub file_store-Confined :
    (u : Unicode) (c : Codec) (env : AppendEnv) (s : FileStore) (text : Text) (es : List Entry)
    → s.content ≡ some text
    → Reads c (scan_lines text) es
    → Confined (file_store u c env) s
unfolding file_store
file_store-Confined u c env s text es h r q result n e =
    let matching = λ (x : Entry). matches_query u c x q in
    let P = λ (x : Entry). x.log_record.client_id ≡ q.client_id in
    subst (λ (x : LogQueryResult). AllOf q.client_id x.items)
      (ok_injective (sym (query_logs_correct u c s q text es h r) ∙ e))
      (All-take P (pos_part q.limit) (window matching q es) (
        All-drop P (pos_part q.offset) _ (
          All-select P _ _ (
            All-map _ P (select matching es) (λ x k. matches_query-client_id u c x q k n)
              (select-All matching es)))))
