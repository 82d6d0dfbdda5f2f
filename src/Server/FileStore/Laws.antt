-- ===== src/Server/FileStore/Laws.antt =====
-- What NewFileStore, Append and Verify promise together.
use audit_logging.Common.{
  ◌<◌, List, [], ◌∷◌, ◌++◌, ◌≡◌, sym, ap, ap₂, ◌∙◌, subst, Option, some, arith,
}
use audit_logging.Text.{Text, utf8_size}
use audit_logging.Server.Model.{Error, ok, err, next_uint64, LogRecord, Entry, VerifyResult}
use audit_logging.Server.Codec.{Codec, IsJson}
use audit_logging.Server.Chain.{genesis, Link, IsChain, head_hash, count_from, intact}
use audit_logging.Server.FileStore.{FileStore, scan_lines, max_token_size, AppendEnv, whole, append}
use audit_logging.Server.FileStore.Scan.{IsTerminated}
use audit_logging.Server.FileStore.Verify.{Holds, verify, verify_complete, verify_sound}
use audit_logging.Server.FileStore.Open.{OpenEnv, or_empty, new_file_store, new_file_store-Opened}
use audit_logging.Server.FileStore.Coherent.{IsCoherent, append-Stored, added, append-IsCoherent}

module _ (c : Codec) where
  -- A store that agrees with its file verifies, with the total and the hash that its fields say.
  pub verify-IsCoherent :
      (s : FileStore) (links : List Link)
      → IsCoherent c s links
      → verify c s ≡ ok (intact s.last_index s.last_hash)
  unfolding verify
  verify-IsCoherent s links k = rw k.content (
      verify_complete c 1 genesis 0 k.holds k.chain
      ∙ ap₂ (λ n h. ok (intact n h)) (sym k.last_index) (sym k.last_hash))

  -- Every line of this entry fits in the scanner's buffer.
  abbrev pub Fits : Entry → Type 0
  Fits e = (line : Text) → c.marshal_entry e ≡ ok line → utf8_size line < max_token_size

  pub record Extended (r : LogRecord) (s : FileStore) (links : List Link) (e : Entry)
      (s' : FileStore) : Type 0 where
    pub link : Link
    pub payload : c.marshal_record r ≡ ok link.payload
    pub coherent : IsCoherent c s' (links ++ link ∷ [])
    pub verified : verify c s' ≡ ok (intact (next_uint64 s.last_index) e.entry_hash)

  -- An append that succeeds, on a store that agrees with the chain in its file, keeps it so: the
  -- chain is longer by one link, whose payload is the marshalled record, and the file verifies, with
  -- the next index and the new entry's hash. The entry's line must fit in the scanner's buffer.
  pub append_extends :
      (env : AppendEnv) (r : LogRecord) (s : FileStore) (links : List Link) (e : Entry)
      (s' : FileStore)
      → IsJson c
      → IsCoherent c s links
      → append c env r s ≡ (ok e, s')
      → Fits e
      → Extended r s links e s'
  append_extends env r s links e s' j k h fits =
      let d = append-Stored c env r s h in
      let next = append-IsCoherent c env r s j links k d (fits d.line (rw d.entry d.entry_line)) in
      record {
        link = added c env r s d;
        payload = d.marshalled;
        coherent = next;
        verified =
            verify-IsCoherent s' _ next
            ∙ cc (
              ap (λ (x : FileStore). x.last_index) d.store,
              ap (λ (x : FileStore). x.last_hash) d.store,
              ap (λ (x : Entry). x.index) d.entry,
            );
      }

  -- An append that fails otherwise than in writing the line leaves the store and its file as they
  -- were.
  pub append_failed :
      (env : AppendEnv) (r : LogRecord) (s : FileStore) (x : Error) (s' : FileStore)
      → append c env r s ≡ (err x, s')
      → env.written ≡ whole
      → s' ≡ s
  unfolding append
  append_failed env r s x s' h w = ground arith

  -- The store holds the text, all of whose entries are a chain from the first hash on, and its fields
  -- say where that ends.
  pub record IsLoaded (text : Text) (s : FileStore) (links : List Link) : Type 0 where
    pub content : s.content ≡ some text
    pub holds : Holds c (scan_lines text) links
    pub chain : IsChain c 1 genesis links
    pub last_index : s.last_index ≡ count_from 0 links
    pub last_hash : s.last_hash ≡ head_hash genesis links

  pub new_file_store-IsLoaded :
      (env : OpenEnv) (content : Option Text) (s : FileStore)
      → new_file_store c env content ≡ ok s
      → (links : List Link) × IsLoaded (or_empty content) s links
  new_file_store-IsLoaded env content s h =
      let o = new_file_store-Opened c env content s h in
      let i = verify_sound c (scan_lines o.text) 1 genesis 0 o.verified o.valid in
      (
        i.links,
        record {
          content = cc (ap (λ (x : FileStore). x.content) o.store, o.found);
          holds = subst (λ x. Holds c (scan_lines x) i.links) o.found i.holds;
          chain = i.chain;
          last_index = cc (
            ap (λ (x : FileStore). x.last_index) o.store,
            ap (λ (x : VerifyResult). x.total_entries) i.result,
          );
          last_hash = cc (
            ap (λ (x : FileStore). x.last_hash) o.store,
            ap (λ (x : VerifyResult). x.last_hash) i.result,
          );
        },
      )

  -- Where NewFileStore accepts a file that is missing, or that ends at a line's end, the store that it
  -- gives holds the text that was in the file, or the empty text if there was none, and agrees with a
  -- chain in it.
  pub new_file_store-IsCoherent :
      (env : OpenEnv) (content : Option Text) (s : FileStore)
      → IsTerminated (or_empty content)
      → new_file_store c env content ≡ ok s
      → (s.content ≡ some (or_empty content)) × (links : List Link) × IsCoherent c s links
  new_file_store-IsCoherent env content s t h =
      let (links, k) = new_file_store-IsLoaded env content s h in
      (
        k.content,
        links,
        record {
          text = or_empty content;
          content = k.content;
          terminated = t;
          holds = k.holds;
          chain = k.chain;
          last_index = k.last_index;
          last_hash = k.last_hash;
        },
      )
