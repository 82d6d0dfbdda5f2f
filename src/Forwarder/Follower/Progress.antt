-- ===== src/Forwarder/Follower/Progress.antt =====
-- cmd/log-forwarder/follower.go: which bytes have been handed on, and which still wait.
use audit_logging.Common.{
  ℕ, ◌+◌, ◌^◌, ◌<◌, [], List, ◌∷◌, ◌++◌, append_assoc, append-nil, length, length-append, ◌≡◌, refl,
  sym, ◌∙◌, ap, subst, true, Bool-cases, Option, none, some, ◌==◌, inl, inr, arith,
}
use audit_logging.Common.Int.{pos, add_int64}
use audit_logging.Server.Model.{Error}
use audit_logging.Forwarder.Config.{Config}
use audit_logging.Forwarder.Follower.{FileIdentity, Sink, newline, emit}
use audit_logging.Forwarder.Follower.Bytes.{
  Tail, by_byte, by_byte-newline, by_byte-other, behind, snoc_append,
}

add_int64_small : (a b : ℕ) → a + b < 2 ^ 63 → add_int64 (pos a) (pos b) ≡ pos (a + b)
unfolding add_int64
add_int64_small a b h = ground arith

-- What a machine that was not stopped has behind it: the bytes that it committed, with their count.
pub record Progress {S : Type 0} (c : ℕ) (bytes : List ℕ) (t : Tail S) : Type 0 where
  pub handed_on : List ℕ
  pub split : bytes ≡ handed_on ++ t.pending
  pub committed : t.committed ≡ pos (c + length handed_on)

module _ {S : Type 0} (e : Sink S) (cfg : Config) (id : FileIdentity) where
  -- A line end, when the line is handed on.
  line-Progress :
      (acc : List ℕ) (b : ℕ) (bs : List ℕ) (c : ℕ) (p : Option Error × S)
      (bound : c + length (acc ++ (b ∷ bs)) < 2 ^ 63)
      (rest : (s : S)
        → (by_byte e cfg id bs (pos (c + (length acc + 1))) [] s).stopped ≡ none
        → Progress
            (c + (length acc + 1))
            bs
            (by_byte e cfg id bs (pos (c + (length acc + 1))) [] s))
      → (behind e cfg id p (pos (c + (length acc + 1))) bs).stopped ≡ none
      → Progress c (acc ++ (b ∷ bs)) (behind e cfg id p (pos (c + (length acc + 1))) bs)
  line-Progress acc b bs c (some er, s) bound rest h = absurd cc
  line-Progress acc b bs c (none, s) bound rest h =
      let r = rest s h in
      record {
        handed_on = acc ++ (b ∷ r.handed_on);
        split = ap (λ x. acc ++ (b ∷ x)) r.split ∙ sym (append_assoc acc (b ∷ r.handed_on) _);
        committed =
            r.committed ∙ ap (λ n. pos n) (omega (arith, length-append acc (b ∷ r.handed_on)));
      }

  -- A line end, with the offset behind it.
  pub newline_at :
      (b : ℕ) (bs acc : List ℕ) (c : ℕ) (s : S)
      → c + length (acc ++ (b ∷ bs)) < 2 ^ 63
      → (b == newline) ≡ true
      → by_byte e cfg id (b ∷ bs) (pos c) acc s
        ≡ behind e cfg id
            (emit e cfg id (pos (c + (length acc + 1))) acc s)
            (pos (c + (length acc + 1)))
            bs
  newline_at b bs acc c s bound g =
      by_byte-newline e cfg id b bs acc (pos c) s g
      ∙ rw (add_int64_small c (length acc + 1) (omega (arith, bound, length-append acc (b ∷ bs))))
          refl

  nil-Progress :
      (acc : List ℕ) (c : ℕ) (s : S) → Progress c (acc ++ []) (by_byte e cfg id [] (pos c) acc s)
  unfolding by_byte
  nil-Progress acc c s = record {
    handed_on = [];
    split = append-nil acc;
    committed = ap (λ n. pos n) (omega arith);
  }

  pub by_byte-Progress :
      (bs acc : List ℕ) (c : ℕ) (s : S)
      → c + length (acc ++ bs) < 2 ^ 63
      → (by_byte e cfg id bs (pos c) acc s).stopped ≡ none
      → Progress c (acc ++ bs) (by_byte e cfg id bs (pos c) acc s)
  by_byte-Progress [] acc c s bound h = nil-Progress acc c s
  by_byte-Progress (b ∷ bs) acc c s bound h = elim (Bool-cases (b == newline)) [
    | inr g ↦
        let k = by_byte-other e cfg id b bs acc (pos c) s g in
        rw k (
          subst (λ x. Progress c x (by_byte e cfg id bs (pos c) (acc ++ (b ∷ [])) s))
            (snoc_append acc b bs)
            (by_byte-Progress bs (acc ++ (b ∷ [])) c s (rw (snoc_append acc b bs) bound)
              (ap (λ t. t.stopped) (sym k) ∙ h)))
    | inl g ↦
        let k = newline_at b bs acc c s bound g in
        rw k (
          line-Progress acc b bs c (emit e cfg id (pos (c + (length acc + 1))) acc s) bound
            (λ s'.
              by_byte-Progress bs [] (c + (length acc + 1)) s'
                (omega (arith, bound, length-append acc (b ∷ bs))))
            (ap (λ t. t.stopped) (sym k) ∙ h))
  ]
