-- ===== src/Server/Chain/Tamper.antt =====
-- A chain is pinned by its length and its last hash: two different ones give a collision.
use audit_logging.Common.{
  ℕ, List, [], ◌∷◌, ◌++◌, ◌≡◌, ◌≢◌, refl, sym, subst, ◌∙◌, ◌⊎◌, inl, inr, All-map, length, arith,
  append_assoc,
}
use audit_logging.Text.{Text}
use audit_logging.Text.Equal.{Lacks, Text-cases, cut_last, append_cancel_left}
use audit_logging.Text.Hex.{IsHex}
use audit_logging.Text.Decimal.{format_uint}
use audit_logging.Server.Codec.{Codec, IsDigest, sha256_hex, sha256_hex-IsHex}
use audit_logging.Server.Chain.{genesis, preimage, entry_digest, Link, IsLink, IsChain, head_hash}
use audit_logging.Server.Model.{next_uint64}

-- Two texts with one digest.
pub record Collision (c : Codec) : Type 0 where
  pub one : Text
  pub other : Text
  pub differ : one ≢ other
  pub same_digest : sha256_hex c one ≡ sha256_hex c other

-- The texts that are hashed for a chain from an index and a hash on: each link's payload, and the text of
-- its entry hash.
pub data IsHashed : ℕ → Text → List Link → Text → Type 0 where
  of_payload : (n : ℕ) (h : Text) (l : Link) (ls : List Link) → IsHashed n h (l ∷ ls) l.payload
  of_link :
      (n : ℕ) (h : Text) (l : Link) (ls : List Link)
      → IsHashed n h (l ∷ ls) (preimage n l.timestamp l.payload_hash h)
  of_later :
      (n : ℕ) (h : Text) (l : Link) (ls : List Link) (text : Text)
      → IsHashed (next_uint64 n) l.entry_hash ls text
      → IsHashed n h (l ∷ ls) text

-- Two different texts, hashed for one chain and for the other, with one digest.
pub record Clash (c : Codec) (n : ℕ) (h k : Text) (ls ms : List Link) : Type 0 where
  pub one : Text
  pub other : Text
  pub hashed_one : IsHashed n h ls one
  pub hashed_other : IsHashed n k ms other
  pub differ : one ≢ other
  pub same_digest : sha256_hex c one ≡ sha256_hex c other

later-Clash :
    (c : Codec) (n : ℕ) (h k : Text) (l m : Link) (ls ms : List Link)
    → Clash c (next_uint64 n) l.entry_hash m.entry_hash ls ms
    → Clash c n h k (l ∷ ls) (m ∷ ms)
later-Clash c n h k l m ls ms x = record {
  one = x.one;
  other = x.other;
  hashed_one = of_later n h l ls x.one x.hashed_one;
  hashed_other = of_later n k m ms x.other x.hashed_other;
  differ = x.differ;
  same_digest = x.same_digest;
}

-- Texts with the same digest are the same, or a collision.
pub digest_cases :
    (c : Codec) (s t : Text) → sha256_hex c s ≡ sha256_hex c t → (s ≡ t) ⊎ Collision c
digest_cases c s t e = elim (Text-cases s t) [
  | inl p ↦ inl p
  | inr p ↦ inr (record { one = s; other = t; differ = p; same_digest = e })
]

-- A digest holds no separator, nor does the hash that a chain starts from.
sha256_hex-Lacks : (c : Codec) → IsDigest c → (s : Text) → Lacks b'|' (sha256_hex c s)
sha256_hex-Lacks c d s =
    All-map IsHex (λ x. x ≢ b'|') (sha256_hex c s) (λ x h. omega arith) (sha256_hex-IsHex c d s)

-- The hashed text determines its parts, where the two hashes hold no separator.
pub preimage-injective :
    (n : ℕ) (s t p q h k : Text)
    → Lacks b'|' p
    → Lacks b'|' q
    → Lacks b'|' h
    → Lacks b'|' k
    → preimage n s p h ≡ preimage n t q k
    → (s ≡ t) × (p ≡ q) × (h ≡ k)
unfolding preimage
preimage-injective n s t p q h k lp lq lh lk e =
    let bare : s ++ (b'|' ∷ (p ++ (b'|' ∷ h))) ≡ t ++ (b'|' ∷ (q ++ (b'|' ∷ k))) =
      cc (append_cancel_left (format_uint n) _ _ e) in
    let paired : (s ++ (b'|' ∷ p)) ++ (b'|' ∷ h) ≡ (t ++ (b'|' ∷ q)) ++ (b'|' ∷ k) =
      append_assoc s (b'|' ∷ p) (b'|' ∷ h) ∙ bare ∙ sym (append_assoc t (b'|' ∷ q) (b'|' ∷ k)) in
    let (front, last) = cut_last b'|' _ _ h k lh lk paired in
    let (times, payloads) = cut_last b'|' s t p q lp lq front in (times, payloads, last)

module _ (c : Codec) (d : IsDigest c) where
  IsLink-Lacks :
      {n : ℕ} {h : Text} (l : Link)
      → IsLink c n h l
      → Lacks b'|' l.payload_hash × Lacks b'|' l.entry_hash
  unfolding entry_digest
  IsLink-Lacks {n} {h} l k = (
    subst (Lacks b'|') (sym k.payload_hash) (sha256_hex-Lacks c d l.payload),
    subst (Lacks b'|') (sym k.entry_hash) (sha256_hex-Lacks c d _),
  )

  -- Two links at one index with one entry hash are the same, behind the same hash, or two of the
  -- texts hashed for them collide.
  link_cases :
      (n : ℕ) (h k : Text) (l m : Link) (ls ms : List Link)
      → Lacks b'|' h
      → Lacks b'|' k
      → IsLink c n h l
      → IsLink c n k m
      → l.entry_hash ≡ m.entry_hash
      → ((h ≡ k) × (l ≡ m)) ⊎ Clash c n h k (l ∷ ls) (m ∷ ms)
  unfolding entry_digest
  link_cases n h k l m ls ms lh lk il im e =
      elim (Text-cases (preimage n l.timestamp l.payload_hash h)
        (preimage n m.timestamp m.payload_hash k)) [
          | inr differ ↦ inr (record {
            one = preimage n l.timestamp l.payload_hash h;
            other = preimage n m.timestamp m.payload_hash k;
            hashed_one = of_link n h l ls;
            hashed_other = of_link n k m ms;
            differ = differ;
            same_digest = cc (il.entry_hash, im.entry_hash);
          })
          | inl p ↦
              let (times, hashes, back) =
                preimage-injective n _ _ _ _ h k (IsLink-Lacks l il).0 (IsLink-Lacks m im).0 lh lk
                  p in
              elim (Text-cases l.payload m.payload) [
                | inr differ ↦ inr (record {
                  one = l.payload;
                  other = m.payload;
                  hashed_one = of_payload n h l ls;
                  hashed_other = of_payload n k m ms;
                  differ = differ;
                  same_digest = cc (il.payload_hash, im.payload_hash, hashes);
                })
                | inl q ↦ inl (back, ground arith)
              ]
        ]

  -- Two chains of one length that end in one hash, from one index on, are the same chain behind the
  -- same hash, or two of the texts hashed for them collide.
  chain_cases :
      (n : ℕ) (h k : Text) (ls ms : List Link)
      → length ls ≡ length ms
      → Lacks b'|' h
      → Lacks b'|' k
      → IsChain c n h ls
      → IsChain c n k ms
      → head_hash h ls ≡ head_hash k ms
      → ((h ≡ k) × (ls ≡ ms)) ⊎ Clash c n h k ls ms
  chain_cases n h k [] [] len lh lk il im e = inl (e, refl)
  chain_cases n h k [] (m ∷ ms) len lh lk il im e = absurd (omega arith)
  chain_cases n h k (l ∷ ls) [] len lh lk il im e = absurd (omega arith)
  chain_cases n h k (l ∷ ls) (m ∷ ms) len lh lk (il, cl) (im, cm) e =
      elim (chain_cases (next_uint64 n) l.entry_hash m.entry_hash ls ms (omega arith)
        (IsLink-Lacks l il).1 (IsLink-Lacks m im).1 cl cm e) [
          | inr x ↦ inr (later-Clash c n h k l m ls ms x)
          | inl (heads, tails) ↦ elim (link_cases n h k l m ls ms lh lk il im heads) [
            | inr x ↦ inr x
            | inl (back, same) ↦ inl (back, cc)
          ]
        ]

  -- Two chains from the first hash on, of one length and with one last hash, are the same chain, or
  -- a text that was hashed for the one, a payload or the text of a link's hash, and a different one that
  -- was hashed for the other have the same digest. A digest has 32 bytes.
  pub chain-determined :
      (ls ms : List Link)
      → length ls ≡ length ms
      → IsChain c 1 genesis ls
      → IsChain c 1 genesis ms
      → head_hash genesis ls ≡ head_hash genesis ms
      → (ls ≡ ms) ⊎ Clash c 1 genesis genesis ls ms
  chain-determined ls ms len il im e =
      elim (chain_cases 1 genesis genesis ls ms len (omega arith) (omega arith) il im e) [
        | inr x ↦ inr x
        | inl (_, same) ↦ inl same
      ]
