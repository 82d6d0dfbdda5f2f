-- ===== src/Server/FileStore/Coherent.antt =====
-- What Append keeps: the store's fields agree with the chain in its file.
use audit_logging.Common.{
  ℕ, ◌+◌, ◌^◌, ◌<◌, List, [], ◌∷◌, ◌++◌, ◌≡◌, refl, sym, ap, ◌∙◌, some, arith, inl, inr, length,
}
use audit_logging.Text.{Text, utf8_size}
use audit_logging.Server.Model.{ok, Stream, next_uint64, LogRecord, Entry, Result-cases}
use audit_logging.Server.Codec.{Codec, IsJson, sha256_hex}
use audit_logging.Server.Chain.{genesis, Link, IsLink, IsChain, head_hash, count_from, entry_digest}
use audit_logging.Server.FileStore.{FileStore, scan_lines, max_token_size, AppendEnv, held, append}
use audit_logging.Server.FileStore.Scan.{
  followed_by, IsTerminated, append-IsTerminated, line-IsTerminated, scan_lines-append,
  scan_lines_line,
}
use audit_logging.Server.FileStore.Verify.{
  good, link_of, read_line, read_line-good, Holds, none_left, skip, take_link,
}

module _ (c : Codec) where
  -- The file holds the chain `links`, whole lines of it, and the fields say where it ends.
  pub record IsCoherent (s : FileStore) (links : List Link) : Type 0 where
    pub text : Text
    pub content : s.content ≡ some text
    pub terminated : IsTerminated text
    pub holds : Holds c (scan_lines text) links
    pub chain : IsChain c 1 genesis links
    pub last_index : s.last_index ≡ count_from 0 links
    pub last_hash : s.last_hash ≡ head_hash genesis links

  Holds-followed_by :
      {s t : Stream Text} {ls ms : List Link}
      → Holds c s ls
      → Holds c t ms
      → Holds c (followed_by s t) (ls ++ ms)
  unfolding followed_by
  Holds-followed_by none_left k = k
  Holds-followed_by (skip e h) k = skip e (Holds-followed_by h k)
  Holds-followed_by (take_link e h) k = take_link e (Holds-followed_by h k)

  pub IsChain-concat :
      (n : ℕ) (h : Text) (ls : List Link) (l : Link)
      → IsChain c n h ls
      → IsLink c (count_from n ls) (head_hash h ls) l
      → IsChain c n h (ls ++ l ∷ [])
  IsChain-concat n h [] l k i = (i, tt)
  IsChain-concat n h (m ∷ ls) l k i = (k.0, IsChain-concat (next_uint64 n) m.entry_hash ls l k.1 i)

count_from-next :
    (n : ℕ) (ls : List Link) → count_from (next_uint64 n) ls ≡ next_uint64 (count_from n ls)
count_from-next n [] = refl
count_from-next n (l ∷ ls) = count_from-next (next_uint64 n) ls

count_from-concat :
    (n : ℕ) (ls : List Link) (l : Link)
    → count_from n (ls ++ l ∷ []) ≡ next_uint64 (count_from n ls)
count_from-concat n [] l = refl
count_from-concat n (m ∷ ls) l = count_from-concat (next_uint64 n) ls l

-- The count in uint64 is the length, as long as that fits.
pub count_from-length :
    (n : ℕ) (ls : List Link) → n + length ls < 2 ^ 64 → count_from n ls ≡ n + length ls
count_from-length n [] h = omega arith
count_from-length n (l ∷ ls) h =
    let step : next_uint64 n ≡ n + 1 = omega arith in
    rw step (count_from-length (n + 1) ls (omega arith) ∙ omega arith)

head_hash-concat :
    (h : Text) (ls : List Link) (l : Link) → head_hash h (ls ++ l ∷ []) ≡ l.entry_hash
head_hash-concat h [] l = refl
head_hash-concat h (m ∷ ls) l = head_hash-concat m.entry_hash ls l

-- The entry that Append builds once the record is marshalled.
abbrev pub built : Codec → AppendEnv → LogRecord → FileStore → Text → Entry
built c env r s payload = record {
  index = next_uint64 s.last_index;
  timestamp = env.now;
  prev_hash = s.last_hash;
  payload_hash = sha256_hex c payload;
  entry_hash = entry_digest c (next_uint64 s.last_index) env.now (sha256_hex c payload) s.last_hash;
  log_record = r;
}

-- What a successful Append did.
pub record Stored (c : Codec) (env : AppendEnv) (r : LogRecord) (s : FileStore) (e : Entry)
    (s' : FileStore) : Type 0 where
  pub payload : Text
  pub line : Text
  pub marshalled : c.marshal_record r ≡ ok payload
  pub entry_line : c.marshal_entry (built c env r s payload) ≡ ok line
  pub entry : e ≡ built c env r s payload
  pub store : s' ≡ record s {
    content = some (held c s.content ++ (line ++ (b'\n' ∷ [])));
    last_index = e.index;
    last_hash = e.entry_hash;
  }

module _ (c : Codec) (env : AppendEnv) (r : LogRecord) (s : FileStore) {e : Entry}
    {s' : FileStore} where
  pub append-Stored : append c env r s ≡ (ok e, s') → Stored c env r s e s'
  unfolding append
  append-Stored h = elim (Result-cases (c.marshal_record r)) [
    | inl (payload, m) ↦ elim (Result-cases (c.marshal_entry (built c env r s payload))) [
      | inl (line, k) ↦ record {
        payload = payload;
        line = line;
        marshalled = m;
        entry_line = k;
        entry = ground arith;
        store = ground arith;
      }
      | inr (x, k) ↦ absurd (ground arith)
    ]
    | inr (x, m) ↦ absurd (ground arith)
  ]

  -- What Append wrote is read back as the link that it added.
  read_line-Stored :
      (j : IsJson c) (d : Stored c env r s e s')
      → read_line c d.line ≡ good (link_of (built c env r s d.payload) d.payload)
  read_line-Stored j d =
      let b = built c env r s d.payload in
      let (x, back, same) = j.round_trip b d.line d.entry_line in
      read_line-good c d.line x d.payload (j.no_margin b d.line d.entry_line)
        (j.not_empty b d.line d.entry_line) back (same.log_record ∙ d.marshalled)
      ∙ ground
          (arith, same.index, same.timestamp, same.prev_hash, same.payload_hash, same.entry_hash)

  -- The link that Append added.
  abbrev pub added : Stored c env r s e s' → Link
  added d = link_of (built c env r s d.payload) d.payload

  added-IsLink :
      (links : List Link) (k : IsCoherent c s links) (d : Stored c env r s e s')
      → IsLink c (count_from 1 links) (head_hash genesis links) (added d)
  added-IsLink links k d =
      let index : next_uint64 s.last_index ≡ count_from 1 links =
        ap next_uint64 k.last_index ∙ sym (count_from-next 0 links) in
      record {
        index = index;
        prev_hash = k.last_hash;
        payload_hash = refl;
        entry_hash = cc (index, k.last_hash);
      }

  -- From a store that agrees with its file, an Append that succeeds and whose line fits in the
  -- scanner's buffer leaves such a store: its file has one link more.
  pub append-IsCoherent :
      (j : IsJson c) (links : List Link) (k : IsCoherent c s links) (d : Stored c env r s e s')
      → utf8_size d.line < max_token_size
      → IsCoherent c s' (links ++ added d ∷ [])
  append-IsCoherent j links k d fits =
      let one_line = j.one_line _ d.line d.entry_line in
      record {
        text = k.text ++ (d.line ++ (b'\n' ∷ []));
        content = cc (ap (λ (x : FileStore). x.content) d.store, ap (held c) k.content);
        terminated = append-IsTerminated _ _ k.terminated (line-IsTerminated d.line one_line);
        holds = rw (scan_lines-append k.text (d.line ++ (b'\n' ∷ [])) k.terminated) (
            rw (scan_lines_line d.line one_line (j.no_return _ d.line d.entry_line) fits)
              (Holds-followed_by c k.holds (take_link (read_line-Stored j d) none_left)));
        chain = IsChain-concat c 1 genesis links (added d) k.chain (added-IsLink links k d);
        last_index =
            cc (ap (λ (x : FileStore). x.last_index) d.store, ap (λ (x : Entry). x.index) d.entry)
            ∙ ap next_uint64 k.last_index
            ∙ sym (count_from-concat 0 links (added d));
        last_hash =
            cc (
              ap (λ (x : FileStore). x.last_hash) d.store,
              ap (λ (x : Entry). x.entry_hash) d.entry,
            )
            ∙ sym (head_hash-concat genesis links (added d));
      }
