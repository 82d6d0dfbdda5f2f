-- ===== src/Tests/Cli.antt =====
-- The administration of the registry from the command line, run.
use audit_logging.Common.{[], ◌∷◌, ◌≡◌, refl, none, some, if◌then◌else◌}
use audit_logging.Text.{codes, equal}
use audit_logging.Text.Space.{trim_space}
use audit_logging.Text.Hex.{hex_encode}
use audit_logging.Text.Base64.{base64_encode}
use audit_logging.Server.Auth.{valid_role, new_client_id, new_secret}
use audit_logging.Server.Registry.{register, find_row, insert_row}
use audit_logging.Server.ClientsCli.{
  CliWorld, clients_register, register_with, registered, run_clients_command,
}
use audit_logging.Server.ClientsCli.Laws.{
  IsGraded, IsUsageError, run_clients_command-IsGraded, Printed, clients_register-Printed,
}
use audit_logging.Tests.Toy.{toy}
use audit_logging.Tests.Access.{env, id_bytes-IsFilled, secret_bytes-IsFilled}

-- A flag parser that finds the name "web" and the role "client".
abbrev world : CliWorld
world = record {
  parse = λ set flags args.
      (some (λ n. if equal n (codes "name") then codes "web" else codes "client"), []);
  quote = λ s. s;
  rfc3339 = λ n. codes "T";
  columns = λ rows. ([], none);
  registry = env;
  list_error = none;
}

run_clients_command-IsGraded_example :
    IsGraded [] (run_clients_command toy world [] none none none [] (codes "lst" ∷ []))
    × (IsUsageError toy world (codes "lst" ∷ [])
        → (run_clients_command toy world [] none none none [] (codes "lst" ∷ [])).code ≡ 2)
run_clients_command-IsGraded_example =
    run_clients_command-IsGraded toy world [] none none none [] (codes "lst" ∷ [])

did_register : (clients_register toy world [] (codes "--name" ∷ codes "web" ∷ [])).code ≡ 0
unfolding clients_register register_with registered register trim_space valid_role equal
    new_client_id new_secret hex_encode base64_encode insert_row find_row
did_register = refl

clients_register-Printed_example :
    Printed toy world (clients_register toy world [] (codes "--name" ∷ codes "web" ∷ []))
clients_register-Printed_example =
    clients_register-Printed toy world [] (codes "--name" ∷ codes "web" ∷ []) id_bytes-IsFilled
      secret_bytes-IsFilled did_register
