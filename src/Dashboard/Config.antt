-- ===== src/Dashboard/Config.antt =====
-- cmd/security-dashboard/main.go: the types of config.json.
use audit_logging.Common.{List, [], Option, none}
use audit_logging.Text.{Text}
use audit_logging.Dashboard.Checks.{CheckDef}

-- Config.App
pub record App : Type 0 where
  pub name : Text
  pub description : Text
  pub repo : Text
  pub team : Text
  pub contact : Text

pub record Conformance : Type 0 where
  pub name : Text
  pub suite : Text
  pub status : Text
  pub summary : Text
  pub last_run : Text
  pub report : Text

pub record AsvsReqItem : Type 0 where
  pub id : Text
  pub name : Text
  pub coverage : Text
  pub evidence : Text

pub record Asvs : Type 0 where
  pub target_level : Text
  pub note : Text
  pub requirements : List AsvsReqItem

pub record Standard : Type 0 where
  pub name : Text
  pub note : Text
  pub framework : Text

pub record ComplianceDoc : Type 0 where
  pub id : Text
  pub title : Text
  pub path : Text

pub record Config : Type 0 where
  pub app : App
  pub manual_doc : Text
  pub standards : List Standard
  pub compliance_docs : List ComplianceDoc
  pub asvs : Option Asvs
  pub conformance : List Conformance
  pub checks : List CheckDef

-- Config{}
abbrev pub no_config : Config
no_config = record {
  app = record { name = []; description = []; repo = []; team = []; contact = [] };
  manual_doc = [];
  standards = [];
  compliance_docs = [];
  asvs = none;
  conformance = [];
  checks = [];
}
