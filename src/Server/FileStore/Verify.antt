-- ===== src/Server/FileStore/Verify.antt =====
-- verifyChainUnsafe, and what it decides: that the lines hold a chain.
use audit_logging.Common.{
  ℕ, List, [], ◌∷◌, ◌≡◌, refl, sym, ◌∙◌, true, none, some, arith, Option-cases, inl, inr,
  if◌then◌else◌, ◌⊎◌, ◌≢◌,
}
use audit_logging.Text.{Text, is_empty}
use audit_logging.Text.Space.{trim_space}
use audit_logging.Server.Model.{
  Result, ok, err, ◌>>=◌, Stream, eof, broken, more, next_uint64, Entry, Reason, invalid_json,
  payload_marshal, VerifyResult,
}
use audit_logging.Server.Codec.{Codec}
use audit_logging.Server.Chain.{
  genesis, Link, link_fault, link_fault-none, link_fault-IsLink, invalid, intact, IsChain,
  head_hash, count_from,
}
use audit_logging.Server.FileStore.{FileStore, scan_lines, open_file}

-- What a line is: empty, unreadable, or a link.
pub data Line : Type 0 where
  blank : Line
  bad : Reason → Line
  good : Link → Line

abbrev pub link_of : Entry → Text → Link
link_of e payload = record {
  index = e.index;
  timestamp = e.timestamp;
  prev_hash = e.prev_hash;
  payload_hash = e.payload_hash;
  entry_hash = e.entry_hash;
  payload = payload;
}

module _ (c : Codec) where
  -- json.Unmarshal of a line that is not empty, and json.Marshal of its record
  read_entry : Result Entry → Line
  read_entry (err _) = bad invalid_json
  read_entry (ok e) = elim (c.marshal_record e.log_record) [
    | err _ ↦ bad payload_marshal
    | ok payload ↦ good (link_of e payload)
  ]

  unfoldable pub read_line : Text → Line
  unfolding read_entry
  read_line raw =
      let line = trim_space raw in
      if is_empty line then blank else read_entry (c.unmarshal_entry line)

  read_entry-good :
      (x : Result Entry) (e : Entry) (payload : Text)
      → x ≡ ok e
      → c.marshal_record e.log_record ≡ ok payload
      → read_entry x ≡ good (link_of e payload)
  unfolding read_entry
  read_entry-good x e payload p m = ground arith

  -- A line without margins that is read, and whose record is marshalled, is a link.
  pub read_line-good :
      (raw : Text) (e : Entry) (payload : Text)
      → trim_space raw ≡ raw
      → raw ≢ []
      → c.unmarshal_entry raw ≡ ok e
      → c.marshal_record e.log_record ≡ ok payload
      → read_line raw ≡ good (link_of e payload)
  unfolding read_line
  read_line-good [] e payload t ne p m = absurd (ne refl)
  read_line-good (x ∷ raw) e payload t ne p m =
      rw t (read_entry-good (c.unmarshal_entry (x ∷ raw)) e payload p m)

  -- the loop over the scanner
  unfoldable pub verify_lines : ℕ → Text → ℕ → Stream Text → Result VerifyResult
  verify_lines expected_index previous_hash total eof = ok (intact total previous_hash)
  verify_lines expected_index previous_hash total (broken e) = err e
  verify_lines expected_index previous_hash total (more raw rest) = elim (read_line raw) [
    | blank ↦ verify_lines expected_index previous_hash total rest
    | bad why ↦ ok (invalid total previous_hash expected_index why)
    | good l ↦ elim (link_fault c expected_index previous_hash l) [
      | some why ↦ ok (invalid total previous_hash expected_index why)
      | none ↦ verify_lines (next_uint64 expected_index) l.entry_hash (next_uint64 total) rest
    ]
  ]

  -- verifyChainUnsafe, and Verify, which takes the lock around it
  unfoldable pub verify : FileStore → Result VerifyResult
  verify s = do content ← open_file s; verify_lines 1 genesis 0 (scan_lines content)

  -- The lines hold these links, with blank lines between them at most, and end.
  pub data Holds : Stream Text → List Link → Type 0 where
    none_left : Holds eof []
    skip :
        {raw : Text} {rest : Stream Text} {ls : List Link}
        → read_line raw ≡ blank
        → Holds rest ls
        → Holds (more raw rest) ls
    take_link :
        {raw : Text} {rest : Stream Text} {l : Link} {ls : List Link}
        → read_line raw ≡ good l
        → Holds rest ls
        → Holds (more raw rest) (l ∷ ls)

  Line-cases :
      (x : Line) → (x ≡ blank) ⊎ ((why : Reason) × (x ≡ bad why)) ⊎ ((l : Link) × (x ≡ good l))
  Line-cases blank = inl refl
  Line-cases (bad why) = inr (inl (why, refl))
  Line-cases (good l) = inr (inr (l, refl))

  -- One step of the loop, by what the line is.
  module _ (n : ℕ) (h : Text) (t : ℕ) (raw : Text) (rest : Stream Text) where
    verify_blank :
        read_line raw ≡ blank → verify_lines n h t (more raw rest) ≡ verify_lines n h t rest
    unfolding verify_lines
    verify_blank e = rw (e, verify_lines)

    verify_bad :
        (why : Reason)
        → read_line raw ≡ bad why
        → verify_lines n h t (more raw rest) ≡ ok (invalid t h n why)
    unfolding verify_lines
    verify_bad why e = rw (e, verify_lines)

    verify_good :
        (l : Link)
        → read_line raw ≡ good l
        → link_fault c n h l ≡ none
        → verify_lines n h t (more raw rest)
          ≡ verify_lines (next_uint64 n) l.entry_hash (next_uint64 t) rest
    unfolding verify_lines
    verify_good l e f = rw (e, verify_lines) (rw (f, verify_lines))

    verify_fault :
        (l : Link) (why : Reason)
        → read_line raw ≡ good l
        → link_fault c n h l ≡ some why
        → verify_lines n h t (more raw rest) ≡ ok (invalid t h n why)
    unfolding verify_lines
    verify_fault l why e f = rw (e, verify_lines) (rw (f, verify_lines))

  verify_eof : (n : ℕ) (h : Text) (t : ℕ) → verify_lines n h t eof ≡ ok (intact t h)
  unfolding verify_lines
  verify_eof n h t = refl

  -- Lines that hold a chain verify, with its length and its last hash.
  pub verify_complete :
      {s : Stream Text} {ls : List Link} (n : ℕ) (h : Text) (t : ℕ)
      → Holds s ls
      → IsChain c n h ls
      → verify_lines n h t s ≡ ok (intact (count_from t ls) (head_hash h ls))
  verify_complete n h t none_left k = verify_eof n h t
  verify_complete n h t (skip {raw} {rest} e r) k =
      verify_blank n h t raw rest e ∙ verify_complete n h t r k
  verify_complete n h t (take_link {raw} {rest} {l} {ls} e r) (k, ks) =
      verify_good n h t raw rest l e (link_fault-IsLink c n h l k)
      ∙ verify_complete (next_uint64 n) l.entry_hash (next_uint64 t) r ks

  -- What the lines hold, where the loop found them intact.
  pub record Intact (s : Stream Text) (n : ℕ) (h : Text) (t : ℕ) (r : VerifyResult) : Type 0 where
    pub links : List Link
    pub holds : Holds s links
    pub chain : IsChain c n h links
    pub result : r ≡ intact (count_from t links) (head_hash h links)

  pub verify_sound :
      (s : Stream Text) (n : ℕ) (h : Text) (t : ℕ) {r : VerifyResult}
      → verify_lines n h t s ≡ ok r
      → r.valid ≡ true
      → Intact s n h t r
  verify_sound eof n h t e v = record {
    links = [];
    holds = none_left;
    chain = tt;
    result = cc (verify_eof n h t);
  }
  verify_sound (broken x) n h t e v = absurd (unfold verify_lines in cc)
  verify_sound (more raw rest) n h t {r} e v = elim (Line-cases (read_line raw)) [
    | inl b ↦
        let i = verify_sound rest n h t (sym (verify_blank n h t raw rest b) ∙ e) v in
        record { links = i.links; holds = skip b i.holds; chain = i.chain; result = i.result }
    | inr (inl (why, b)) ↦ absurd (cc (verify_bad n h t raw rest why b))
    | inr (inr (l, b)) ↦ elim (Option-cases (link_fault c n h l)) [
      | inl f ↦
          let i =
            verify_sound rest (next_uint64 n) l.entry_hash (next_uint64 t)
              (sym (verify_good n h t raw rest l b f) ∙ e) v in
          record {
            links = l ∷ i.links;
            holds = take_link b i.holds;
            chain = (link_fault-none c n h l f, i.chain);
            result = i.result;
          }
      | inr (why, f) ↦ absurd (cc (verify_fault n h t raw rest l why b f))
    ]
  ]
