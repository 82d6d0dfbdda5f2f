-- ===== src/Server/Chain.antt =====
-- The hash chain that both stores keep and check: the links, the test of one link as the two
-- verification loops make it, and what a chain is.
pub mod Tamper
use audit_logging.Common.{
  ℕ, ◌+◌, ◌%◌, ◌^◌, List, [], ◌∷◌, ◌++◌, ◌≡◌, refl, Bool, true, false, not, Option, none, some,
  arith, ◌==◌, if◌then◌else◌, ◌↔◌,
}
use audit_logging.Text.{Text, codes, equal}
use audit_logging.Text.Equal.{equal_iff, equal_refl}
use audit_logging.Text.Decimal.{format_uint}
use audit_logging.Server.Model.{
  Reason, index_broken, prev_mismatch, payload_mismatch, entry_mismatch, VerifyResult, next_uint64,
}
use audit_logging.Server.Codec.{Codec, sha256_hex}

abbrev pub genesis : Text
genesis = codes "GENESIS"

-- fmt.Sprintf("%d|%s|%s|%s", index, timestamp, payloadHash, prevHash)
unfoldable pub preimage : ℕ → Text → Text → Text → Text
preimage index timestamp payload_hash prev_hash =
    format_uint index ++ (b'|' ∷ (timestamp ++ (b'|' ∷ (payload_hash ++ (b'|' ∷ prev_hash)))))

unfoldable pub entry_digest : Codec → ℕ → Text → Text → Text → Text
entry_digest c index timestamp payload_hash prev_hash =
    sha256_hex c (preimage index timestamp payload_hash prev_hash)

-- One stored entry as the checks see it; `payload` is the text that `payload_hash` is of.
pub record Link : Type 0 where
  pub index : ℕ
  pub timestamp : Text
  pub prev_hash : Text
  pub payload_hash : Text
  pub entry_hash : Text
  pub payload : Text

-- The first of the four tests that a link fails.
unfoldable pub link_fault : Codec → ℕ → Text → Link → Option Reason
link_fault c expected_index previous_hash l =
    let expected_payload_hash = sha256_hex c l.payload in
    let expected_entry_hash =
      entry_digest c l.index l.timestamp expected_payload_hash l.prev_hash in
    if not (l.index == expected_index)
    then some index_broken
    else if not (equal l.prev_hash previous_hash)
    then some prev_mismatch
    else if not (equal l.payload_hash expected_payload_hash)
    then some payload_mismatch
    else if not (equal l.entry_hash expected_entry_hash)
    then some entry_mismatch
    else none

-- `return VerifyResult{Valid: false, …}`
abbrev pub invalid : ℕ → Text → ℕ → Reason → VerifyResult
invalid total previous_hash expected_index why = record {
  valid = false;
  total_entries = total;
  last_hash = previous_hash;
  invalid_at = some expected_index;
  reason = some why;
}

abbrev pub intact : ℕ → Text → VerifyResult
intact total previous_hash = record {
  valid = true;
  total_entries = total;
  last_hash = previous_hash;
  invalid_at = none;
  reason = none;
}

-- A link that stands at index `n` behind hash `h`.
pub record IsLink (c : Codec) (n : ℕ) (h : Text) (l : Link) : Type 0 where
  pub index : l.index ≡ n
  pub prev_hash : l.prev_hash ≡ h
  pub payload_hash : l.payload_hash ≡ sha256_hex c l.payload
  pub entry_hash : l.entry_hash ≡ entry_digest c n l.timestamp l.payload_hash h

-- The links stand behind one another, from index `n` and hash `h` on.
abbrev pub IsChain : Codec → ℕ → Text → List Link → Type 0
IsChain c n h [] = Unit
IsChain c n h (l ∷ ls) = IsLink c n h l × IsChain c (next_uint64 n) l.entry_hash ls

-- The hash of the last link, and the number of links in uint64 from `n` on.
abbrev pub head_hash : Text → List Link → Text
head_hash h [] = h
head_hash h (l ∷ ls) = head_hash l.entry_hash ls

abbrev pub count_from : ℕ → List Link → ℕ
count_from n [] = n
count_from n (l ∷ ls) = count_from (next_uint64 n) ls

module _ (c : Codec) (n : ℕ) (h : Text) (l : Link) where
  -- The tests find no fault in a link exactly if it stands where it should.
  pub link_fault-none : link_fault c n h l ≡ none → IsLink c n h l
  unfolding link_fault
  link_fault-none e = ground (
    arith,
    equal_iff l.prev_hash h,
    equal_iff l.payload_hash (sha256_hex c l.payload),
    equal_iff l.entry_hash
        (entry_digest c l.index l.timestamp (sha256_hex c l.payload) l.prev_hash),
  )

  pub link_fault-IsLink : IsLink c n h l → link_fault c n h l ≡ none
  unfolding link_fault
  link_fault-IsLink k = ground (
    arith,
    equal_iff l.prev_hash h,
    equal_iff l.payload_hash (sha256_hex c l.payload),
    equal_iff l.entry_hash
        (entry_digest c l.index l.timestamp (sha256_hex c l.payload) l.prev_hash),
  )
