-- ===== src/Tests/Tasks.antt =====
-- A file with one task, and the command that records it as done.
use audit_logging.Common.{[], List, ◌∷◌, ◌++◌, ◌≡◌, refl, ap, ◌∙◌, none, ◌+◌, ◌==◌, if◌then◌else◌}
use audit_logging.Common.Int.{ℤ, pos, negsuc}
use audit_logging.Text.{Text, codes}
use audit_logging.Server.Model.{failure, Result, ok, err, ok_injective}
use audit_logging.Dashboard.Tasks.{Task}
use audit_logging.Dashboard.Tasks.Done.{Disk}
use audit_logging.Dashboard.Tasks.Done.File.{Done}
use audit_logging.Tests.Toy.{field_text, fields_text, text_fields, text_fields-field_text}
use audit_logging.Tests.Dashboard.{review}

abbrev interval_text : ℤ → Text
interval_text (pos n) = 0 ∷ n ∷ []
interval_text (negsuc n) = 1 ∷ n ∷ []

abbrev interval_from : Text → ℤ
interval_from (k ∷ n ∷ []) = if k == 0 then pos n else negsuc n
interval_from _ = pos 0

interval_from-interval_text : (n : ℤ) → interval_from (interval_text n) ≡ n
interval_from-interval_text (pos n) = refl
interval_from-interval_text (negsuc n) = refl

abbrev words : Task → List Text
words t =
    t.id
    ∷ t.title
    ∷ t.category
    ∷ t.cadence
    ∷ t.owner
    ∷ t.status
    ∷ t.last_run
    ∷ t.next_due
    ∷ t.doc_anchor
    ∷ t.notes
    ∷ t.last_note
    ∷ interval_text t.interval_days
    ∷ t.source
    ∷ []

abbrev task_from : List Text → Result (List Task)
task_from (i ∷ t ∷ c ∷ ca ∷ o ∷ s ∷ l ∷ n ∷ d ∷ m ∷ la ∷ iv ∷ so ∷ rest) = ok (
    record {
      id = i;
      title = t;
      category = c;
      cadence = ca;
      owner = o;
      status = s;
      last_run = l;
      next_due = n;
      doc_anchor = d;
      notes = m;
      last_note = la;
      interval_days = interval_from iv;
      source = so;
    }
    ∷ [])
task_from _ = err (failure (codes "short"))

abbrev encode : List Task → Result Text
encode (t ∷ []) = ok (fields_text (words t))
encode _ = err (failure (codes "one task only"))

abbrev pub disk : Disk
disk = record {
  path = codes "tasks.json";
  quote = λ s. s;
  read_error = none;
  decode = λ s. task_from (text_fields s);
  encode = encode;
  write_error = none;
}

field_text-append : (s t u : Text) → field_text s t ++ u ≡ field_text s (t ++ u)
field_text-append [] t u = refl
field_text-append (c ∷ s) t u = ap (◌∷◌ (c + 70000)) (field_text-append s t u)

with_end : (ss : List Text) → text_fields (fields_text ss ++ (10 ∷ [])) ≡ ss ++ ((0 ∷ []) ∷ [])
with_end [] = refl
with_end (s ∷ ss) =
    rw (field_text-append s (fields_text ss) (10 ∷ []))
      (text_fields-field_text s (fields_text ss ++ (10 ∷ [])) ∙ ap (◌∷◌ s) (with_end ss))

round :
    (x : List Task) (bytes : Text)
    → encode x ≡ ok bytes
    → task_from (text_fields (bytes ++ (10 ∷ []))) ≡ ok x
round [] bytes h = absurd cc
round (t ∷ []) bytes h =
    rw⁻¹ (ok_injective h)
      (ap task_from (with_end (words t)) ∙ rw (interval_from-interval_text t.interval_days) refl)
round (t ∷ t' ∷ ts) bytes h = absurd cc

abbrev file : Text
file = fields_text (words review) ++ (10 ∷ [])
