-- ===== src/Tests/Toy.antt =====
-- A codec that has every property that the laws ask for: fields of shifted characters with bars
-- behind them in place of JSON, without metadata, and a checksum in place of SHA-256.
use audit_logging.Common.{
  ℕ, ◌+◌, ◌-◌, ◌*◌, ◌%◌, [], List, ◌∷◌, ◌≡◌, ◌≢◌, refl, ap, ap₂, ◌∙◌, false, none, arith, ◌==◌,
  if◌then◌else◌, All, All-map, subst, sym,
}
use audit_logging.Text.{Text, codes}
use audit_logging.Text.Space.{is_space, trim_space-NoSpace}
use audit_logging.Server.Model.{Result, ok, err, failure, LogRecord, Entry, ok_injective}
use audit_logging.Server.Codec.{Codec, IsDigest, IsJson}

abbrev shift : ℕ
shift = 70000

abbrev pub field_text : Text → Text → Text
field_text [] rest = b'|' ∷ rest
field_text (c ∷ s) rest = (c + shift) ∷ field_text s rest

abbrev pub fields_text : List Text → Text
fields_text [] = []
fields_text (s ∷ ss) = field_text s (fields_text ss)

abbrev onto : ℕ → List Text → List Text
onto c [] = (c ∷ []) ∷ []
onto c (s ∷ ss) = (c ∷ s) ∷ ss

abbrev pub text_fields : Text → List Text
text_fields [] = []
text_fields (c ∷ s) =
    let rest = text_fields s in if c == b'|' then [] ∷ rest else onto (c - shift) rest

abbrev bad_text {ℓ} : {A : Type ℓ} → Result A
bad_text = err (failure (codes "bad text"))

abbrev entry_of : List Text → Result Entry
entry_of ((i ∷ []) ∷ t ∷ ph ∷ pl ∷ eh ∷ ci ∷ ap ∷ le ∷ me ∷ []) = ok (record {
  index = i;
  timestamp = t;
  prev_hash = ph;
  payload_hash = pl;
  entry_hash = eh;
  log_record = record { client_id = ci; app = ap; level = le; message = me; metadata = none };
})
entry_of _ = bad_text

abbrev record_of : List Text → Result LogRecord
record_of (ci ∷ ap ∷ le ∷ me ∷ []) =
    ok (record { client_id = ci; app = ap; level = le; message = me; metadata = none })
record_of _ = bad_text

abbrev pub record_fields : LogRecord → List Text
record_fields r = r.client_id ∷ r.app ∷ r.level ∷ r.message ∷ []

abbrev pub entry_fields : Entry → List Text
entry_fields e =
    (e.index ∷ [])
    ∷ e.timestamp
    ∷ e.prev_hash
    ∷ e.payload_hash
    ∷ e.entry_hash
    ∷ record_fields e.log_record

abbrev checksum : ℕ → Text → ℕ
checksum h [] = h
checksum h (c ∷ s) = checksum ((h * 31 + c) % 256) s

abbrev zeros : List ℕ
zeros =
    0 ∷ 0 ∷ 0 ∷ 0 ∷ 0 ∷ 0 ∷ 0 ∷ 0 ∷ 0 ∷ 0 ∷ 0 ∷ 0 ∷ 0 ∷ 0 ∷ 0 ∷ 0 ∷ 0 ∷ 0 ∷ 0 ∷ 0 ∷ 0 ∷ 0 ∷ 0 ∷ 0
    ∷ 0 ∷ 0 ∷ 0 ∷ 0 ∷ 0 ∷ 0 ∷ 0 ∷ []

abbrev pub toy : Codec
toy = record {
  sum256 = λ s. (checksum 7 s % 256) ∷ zeros;
  marshal_record = λ r. ok (fields_text (record_fields r));
  marshal_entry = λ e. ok (fields_text (entry_fields e));
  marshal_metadata = λ m. codes "{}";
  unmarshal_entry = λ s. entry_of (text_fields s);
  unmarshal_record = λ s. record_of (text_fields s);
}

shift-ne-bar : (c : ℕ) → ((c + shift) == b'|') ≡ false
shift-ne-bar c = ground arith

minus_shift : (c : ℕ) → c + shift - shift ≡ c
minus_shift c = omega arith

pub text_fields-field_text : (s t : Text) → text_fields (field_text s t) ≡ s ∷ text_fields t
text_fields-field_text [] t = refl
text_fields-field_text (c ∷ s) t =
    rw (shift-ne-bar c)
      (ap₂ (λ (x : ℕ) (ss : List Text). onto x ss) (minus_shift c) (text_fields-field_text s t))

text_fields-fields_text : (ss : List Text) → text_fields (fields_text ss) ≡ ss
text_fields-fields_text [] = refl
text_fields-fields_text (s ∷ ss) =
    text_fields-field_text s (fields_text ss) ∙ ap (◌∷◌ s) (text_fields-fields_text ss)

abbrev IsPlain : ℕ → Type 0
IsPlain c = (is_space c ≡ false) × (c ≢ b'\n') × (c ≢ b'\r')

shift-IsPlain : (c : ℕ) → IsPlain (c + shift)
unfolding is_space
shift-IsPlain c = (ground arith, omega arith, omega arith)

bar-IsPlain : IsPlain b'|'
unfolding is_space
bar-IsPlain = (refl, omega arith, omega arith)

field_text-IsPlain : (s t : Text) → All IsPlain t → All IsPlain (field_text s t)
field_text-IsPlain [] t h = (bar-IsPlain, h)
field_text-IsPlain (c ∷ s) t h = (shift-IsPlain c, field_text-IsPlain s t h)

fields_text-IsPlain : (ss : List Text) → All IsPlain (fields_text ss)
fields_text-IsPlain [] = tt
fields_text-IsPlain (s ∷ ss) = field_text-IsPlain s (fields_text ss) (fields_text-IsPlain ss)

marshalled-IsPlain : (e : Entry) (s : Text) → toy.marshal_entry e ≡ ok s → All IsPlain s
marshalled-IsPlain e s h =
    subst (All IsPlain) (ok_injective h) (fields_text-IsPlain (entry_fields e))

pub toy-IsDigest : IsDigest toy
toy-IsDigest = record { bytes = λ s. omega arith; width = λ s. refl }

pub toy-IsJson : IsJson toy
toy-IsJson = record {
  one_line = λ e s h. All-map IsPlain (λ c. c ≢ b'\n') s (λ c p. p.1) (marshalled-IsPlain e s h);
  no_margin = λ e s h.
      trim_space-NoSpace s
        (All-map IsPlain (λ c. is_space c ≡ false) s (λ c p. p.0) (marshalled-IsPlain e s h));
  not_empty = λ e s h k. cc (ok_injective h ∙ k);
  no_return = λ e s h. All-map IsPlain (λ c. c ≢ b'\r') s (λ c p. p.2) (marshalled-IsPlain e s h);
  round_trip = λ e s h. (
    record {
      index = e.index;
      timestamp = e.timestamp;
      prev_hash = e.prev_hash;
      payload_hash = e.payload_hash;
      entry_hash = e.entry_hash;
      log_record = record e.log_record { metadata = none };
    },
    ap (λ (t : Text). entry_of (text_fields t)) (sym (ok_injective h))
        ∙ ap entry_of (text_fields-fields_text (entry_fields e)),
    record {
      index = refl;
      timestamp = refl;
      prev_hash = refl;
      payload_hash = refl;
      entry_hash = refl;
      log_record = refl;
    },
  );
}
