-- ===== src/Server/FileStore/Scan.antt =====
-- The lines of a file to which something is appended, where the file ends at a line's end.
use audit_logging.Common.{
  ℕ, ◌<◌, List, [], ◌∷◌, ◌++◌, ◌≡◌, refl, sym, ap, ◌∙◌, arith, Bool-cases, inl, inr, ltb, ◌==◌,
  lt→ltb,
}
use audit_logging.Text.{Text, utf8_size}
use audit_logging.Text.Equal.{Lacks}
use audit_logging.Server.Model.{Stream, eof, broken, more}
use audit_logging.Server.FileStore.{max_token_size, drop_return, pieces, scan_pieces, scan_lines}

-- One stream, and another behind it if it ends.
unfoldable pub followed_by {ℓ} : {A : Type ℓ} → Stream A → Stream A → Stream A
followed_by eof t = t
followed_by (broken e) t = broken e
followed_by (more a s) t = more a (followed_by s t)

-- The pieces of two texts that are written behind one another.
glue : Text → List Text → Text × List Text → Text × List Text
glue p [] (q, qs) = (p ++ q, qs)
glue p (x ∷ ps) r = let (y, ys) = glue x ps r in (p, y ∷ ys)

glue_cons :
    (c : ℕ) (p : Text) (ps : List Text) (r : Text × List Text)
    → glue (c ∷ p) ps r ≡ (let (q, qs) = glue p ps r in (c ∷ q, qs))
unfolding glue
glue_cons c p [] r = refl
glue_cons c p (x ∷ ps) r = refl

glue_nil : (r : Text × List Text) → r ≡ glue [] [] r
unfolding glue
glue_nil r = refl

glue_break :
    (p : Text) (ps : List Text) (r : Text × List Text)
    → glue [] (p ∷ ps) r ≡ (let (q, qs) = glue p ps r in ([], q ∷ qs))
unfolding glue
glue_break p ps r = refl

pieces-append : (s t : Text) → pieces (s ++ t) ≡ (let (p, ps) = pieces s in glue p ps (pieces t))
unfolding pieces
pieces-append [] t = glue_nil (pieces t)
pieces-append (c ∷ s) t = elim (Bool-cases (c == b'\n')) [
  | inl e ↦ rw e (
      ap (λ (r : Text × List Text). ([], r.0 ∷ r.1)) (pieces-append s t)
      ∙ sym (glue_break (pieces s).0 (pieces s).1 (pieces t)))
  | inr e ↦ rw e (
      ap (λ (r : Text × List Text). (c ∷ r.0, r.1)) (pieces-append s t)
      ∙ sym (glue_cons c (pieces s).0 (pieces s).1 (pieces t)))
]

-- The last piece is empty: the text is empty, or ends with a line end.
abbrev EndsEmpty : Text → List Text → Type 0
EndsEmpty p [] = p ≡ []
EndsEmpty p (x ∷ ps) = EndsEmpty x ps

pub record IsTerminated (s : Text) : Type 0 where
  pub ends : EndsEmpty (pieces s).0 (pieces s).1

scan_pieces-glue :
    (p : Text) (ps : List Text) (q : Text) (qs : List Text)
    → EndsEmpty p ps
    → (let (y, ys) = glue p ps (q, qs) in scan_pieces y ys)
      ≡ followed_by (scan_pieces p ps) (scan_pieces q qs)
unfolding glue scan_pieces followed_by
scan_pieces-glue p [] q qs h = rw h
scan_pieces-glue p (x ∷ ps) q qs h = elim (Bool-cases (ltb (utf8_size p) max_token_size)) [
  | inl e ↦ rw e (ap (more (drop_return p)) (scan_pieces-glue x ps q qs h))
  | inr e ↦ rw e
]

-- The lines of a text that ends at a line's end, and then those of what is written behind it.
pub scan_lines-append :
    (s t : Text) → IsTerminated s → scan_lines (s ++ t) ≡ followed_by (scan_lines s) (scan_lines t)
unfolding scan_lines
scan_lines-append s t h =
    ap (λ (r : Text × List Text). scan_pieces r.0 r.1) (pieces-append s t)
    ∙ scan_pieces-glue (pieces s).0 (pieces s).1 (pieces t).0 (pieces t).1 h.ends

glue-EndsEmpty :
    (p : Text) (ps : List Text) (q : Text) (qs : List Text)
    → EndsEmpty p ps
    → EndsEmpty q qs
    → (let (y, ys) = glue p ps (q, qs) in EndsEmpty y ys)
unfolding glue
glue-EndsEmpty p [] q qs h k = rw h k
glue-EndsEmpty p (x ∷ ps) q qs h k = glue-EndsEmpty x ps q qs h k

pub append-IsTerminated : (s t : Text) → IsTerminated s → IsTerminated t → IsTerminated (s ++ t)
append-IsTerminated s t h k = record {
  ends =
      rw pieces-append
        (glue-EndsEmpty (pieces s).0 (pieces s).1 (pieces t).0 (pieces t).1 h.ends k.ends);
}

pub nil-IsTerminated : IsTerminated []
nil-IsTerminated = record { ends = unfold pieces in refl }

-- One line and its end.
pieces_line : (s : Text) → Lacks b'\n' s → pieces (s ++ (b'\n' ∷ [])) ≡ (s, [] ∷ [])
unfolding pieces
pieces_line [] h = refl
pieces_line (c ∷ s) h = ground (arith, pieces_line s h.1)

pub line-IsTerminated : (s : Text) → Lacks b'\n' s → IsTerminated (s ++ (b'\n' ∷ []))
line-IsTerminated s h = record { ends = rw (pieces_line s h) }

drop_return-Lacks : (s : Text) → Lacks b'\r' s → drop_return s ≡ s
unfolding drop_return
drop_return-Lacks [] h = refl
drop_return-Lacks (c ∷ s) h = ground (arith, drop_return-Lacks s h.1)

-- A line that fits in the buffer is given out, and then the file ends.
pub scan_lines_line :
    (s : Text)
    → Lacks b'\n' s
    → Lacks b'\r' s
    → utf8_size s < max_token_size
    → scan_lines (s ++ (b'\n' ∷ [])) ≡ more s eof
unfolding scan_lines scan_pieces
scan_lines_line s h k fits =
    ap (λ (r : Text × List Text). scan_pieces r.0 r.1) (pieces_line s h)
    ∙ rw (lt→ltb (utf8_size s) max_token_size fits) (ap (λ t. more t eof) (drop_return-Lacks s k))
