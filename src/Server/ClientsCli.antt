-- ===== src/Server/ClientsCli.antt =====
-- cmd/server/clients_cli.go: the administration of the registry from the command line. The package flag,
-- text/tabwriter and the database driver are parameters.
pub mod Laws
use audit_logging.Common.{
  ℕ, [], List, ◌∷◌, ◌++◌, map, Bool, true, false, ◌||◌, Option, none, some, if◌then◌else◌,
}
use audit_logging.Text.{Text, codes, is_empty, equal}
use audit_logging.Text.Space.{trim_space}
use audit_logging.Server.Model.{Error, error_text, Result, ok, err}
use audit_logging.Server.Codec.{Codec}
use audit_logging.Server.Auth.{ClientSummary, role_client}
use audit_logging.Server.Registry.{Row, RegistryEnv, register, rotate, revoke, list}

-- The world of one command: what FlagSet.Parse makes of the arguments, by the name of the flag set and
-- the flags with their defaults (the values, unless it fails, and what it prints), the verb %q, the
-- layout of a time, the columns that tabwriter prints with the error of Flush, and the registry's.
pub record CliWorld : Type 0 where
  pub parse : Text → List (Text × Text) → List Text → Option (Text → Text) × Text
  pub quote : Text → Text
  pub rfc3339 : ℕ → Text
  pub columns : List (List Text) → Text × Option Error
  pub registry : RegistryEnv
  pub list_error : Option Error

-- The exit code, what was printed, and the registry afterwards.
pub record Outcome : Type 0 where
  pub code : ℕ
  pub out : Text
  pub rows : List Row

abbrev pub exit : ℕ → Text → List Row → Outcome
exit code out rows = record { code = code; out = out; rows = rows }

abbrev pub line : Text → Text
line s = s ++ codes "\n"

abbrev failed : Error → Text
failed e = line (codes "error: " ++ error_text e)

abbrev pub clients_usage : Text
clients_usage =
    line (codes "Usage: audit clients <command> [flags]")
    ++ (line []
        ++ (line (codes "Commands:")
            ++ (line (
                  codes
                    "  register --name <name> [--role client|admin]   Create a client and mint its token")
                ++ (line
                      (codes "  list                                           Show every client")
                    ++ (line (
                          codes
                            "  rotate --id <clientId>                         Issue a new token for a client")
                        ++ (line (
                              codes
                                "  revoke --id <clientId>                         Disable a client's token")
                            ++ (line []
                                ++ codes
                                    "DATABASE_URL must be set. The registry always lives in PostgreSQL.")))))))

module _ (c : Codec) (w : CliWorld) where
  -- what register prints of its result
  unfoldable pub registered : Text → Result (Text × Text) × List Row → Outcome
  registered printed (err e, t) = exit 1 (printed ++ failed e) t
  registered printed (ok (id, token), t) =
      exit 0
        (printed
          ++ (line (codes "client id: " ++ id)
              ++ (line (codes "token:     " ++ token)
                  ++ (line []
                      ++ (line (
                            codes
                              "Give this token to the client now. Only its hash is stored, so the")
                          ++ line (
                              codes
                                "token is not recoverable. If it is lost, run: audit clients rotate"))))))
        t

  unfoldable pub register_with : List Row → Option (Text → Text) × Text → Outcome
  unfolding registered
  register_with t (none, printed) = exit 2 printed t
  register_with t (some values, printed) =
      if is_empty (trim_space (values (codes "name")))
      then exit 2 (printed ++ line (codes "error: --name is required")) t
      else registered printed
          (register c w.quote w.registry t (values (codes "name")) (values (codes "role")))

  unfoldable pub clients_register : List Row → List Text → Outcome
  unfolding register_with
  clients_register t args = register_with t (
      w.parse (codes "clients register") ((codes "name", []) ∷ (codes "role", role_client) ∷ [])
        args)

  abbrev row_of : ClientSummary → List Text
  row_of s =
      s.client_id
      ∷ s.name
      ∷ s.role
      ∷ w.rfc3339 s.created_at
      ∷ (if s.revoked then codes "revoked" else codes "active")
      ∷ []

  flushed : List Row → Text × Option Error → Outcome
  flushed t (printed, some e) = exit 1 (printed ++ failed e) t
  flushed t (printed, none) = exit 0 printed t

  listed : List Row → Result (List ClientSummary) → Outcome
  unfolding flushed
  listed t (err e) = exit 1 (failed e) t
  listed t (ok []) = exit 0 (line (codes "no clients registered")) t
  listed t (ok (s ∷ ss)) =
      let header =
        codes "CLIENT ID" ∷ codes "NAME" ∷ codes "ROLE" ∷ codes "CREATED" ∷ codes "STATUS" ∷ [] in
      flushed t (w.columns (header ∷ map row_of (s ∷ ss)))

  unfoldable pub clients_list : List Row → Outcome
  unfolding listed
  clients_list t = listed t (list w.list_error t)

  -- what rotate and revoke do with the id that they are given
  with_id : List Row → (Text → Text → Outcome) → Option (Text → Text) × Text → Outcome
  with_id t next (none, printed) = exit 2 printed t
  with_id t next (some values, printed) =
      let rest = next (values (codes "id")) printed in
      if is_empty (trim_space (values (codes "id")))
      then exit 2 (printed ++ line (codes "error: --id is required")) t
      else rest

  rotated : Text → Result Text × List Row → Outcome
  rotated printed (err e, t) = exit 1 (printed ++ failed e) t
  rotated printed (ok token, t) =
      exit 0
        (printed
          ++ (line (codes "token: " ++ token)
              ++ (line []
                  ++ (line (
                        codes
                          "This token is not recoverable: only its hash is stored. Save it now.")
                      ++ (line (
                            codes
                              "The previous token stopped working the moment this one was issued.")
                          ++ line
                              (codes "Update the client's configuration and restart it now."))))))
        t

  unfoldable pub clients_rotate : List Row → List Text → Outcome
  unfolding with_id rotated
  clients_rotate t args =
      with_id t (λ id. λ printed. rotated printed (rotate c w.quote w.registry t id))
        (w.parse (codes "clients rotate") ((codes "id", []) ∷ []) args)

  revoked_by : Text → Text → Result Text × List Row → Outcome
  revoked_by id printed (err e, t) = exit 1 (printed ++ failed e) t
  revoked_by id printed (ok answer, t) =
      exit 0
        (printed
          ++ (line (codes "revoked " ++ id)
              ++ line (codes "Entries it already wrote keep its attribution.")))
        t

  unfoldable pub clients_revoke : List Row → List Text → Outcome
  unfolding with_id revoked_by
  clients_revoke t args =
      with_id t (λ id. λ printed. revoked_by id printed (revoke c w.quote w.registry t id))
        (w.parse (codes "clients revoke") ((codes "id", []) ∷ []) args)

  -- clientsHandlers: the subcommands
  unfoldable pub clients_handler : Text → Option (List Row → List Text → Outcome)
  clients_handler name =
      if equal name (codes "register")
      then some clients_register
      else if equal name (codes "list")
      then some (λ t. λ args. clients_list t)
      else if equal name (codes "rotate")
      then some clients_rotate
      else if equal name (codes "revoke")
      then some clients_revoke
      else none

  abbrev unknown_command : Text → Text
  unknown_command name =
      codes "unknown command " ++ (w.quote name ++ (codes "\n\n" ++ line clients_usage))

  -- the handler that was found
  dispatch : List Row → Text → List Text → Option (List Row → List Text → Outcome) → Outcome
  dispatch t name args none = exit 2 (unknown_command name) t
  dispatch t name args (some handler) = handler t args

  unfoldable pub run_clients_cli : List Row → List Text → Outcome
  unfolding dispatch
  run_clients_cli t [] = exit 2 (line clients_usage) t
  run_clients_cli t (name ∷ args) = dispatch t name args (clients_handler name)

  abbrev found_handler : Option (List Row → List Text → Outcome) → Bool
  found_handler none = false
  found_handler (some handler) = true

  unfoldable pub is_clients_command : Text → Bool
  is_clients_command name = found_handler (clients_handler name)

  -- The command, given the database's URL and the errors of sql.Open, Ping and NewPostgresClientStore.
  -- What goes to the standard error stands in the same text.
  open_registry : Text → Option Error → Option Error → Option Error → Option Text
  open_registry url open_error ping_error store_error =
      if is_empty (trim_space url)
      then some (codes "error: DATABASE_URL is required")
      else elim open_error [
        | some e ↦ some (codes "error: failed to open database: " ++ error_text e)
        | none ↦ elim ping_error [
          | some e ↦ some (codes "error: failed to reach database: " ++ error_text e)
          | none ↦ elim store_error [
            | some e ↦ some (codes "error: failed to open client registry: " ++ error_text e)
            | none ↦ none
          ]
        ]
      ]

  unfoldable pub run_clients_command :
      Text → Option Error → Option Error → Option Error → List Row → List Text → Outcome
  unfolding open_registry
  run_clients_command url open_error ping_error store_error t [] = exit 2 (line clients_usage) t
  run_clients_command url open_error ping_error store_error t (name ∷ args) =
      if is_clients_command name
      then elim (open_registry url open_error ping_error store_error) [
        | some message ↦ exit 1 (line message) t
        | none ↦ run_clients_cli t (name ∷ args)
      ]
      else exit 2 (unknown_command name) t
