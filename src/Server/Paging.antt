-- ===== src/Server/Paging.antt =====
-- Reading the whole log page by page, as docs/querying.md tells a client to: ask with the cursor
-- that came with the page before, until there is none.
use audit_logging.Common.{
  ℕ, zero, suc, ◌≤◌, ◌<◌, List, [], ◌∷◌, ◌++◌, ◌≡◌, refl, sym, ap, ◌∙◌, Bool, Option, none, some,
  arith, ltb, length, All, take, drop, select, dec_lt, ap₂, Bool-cases, inl, inr, ltb→lt, lt→ltb,
  take-append-drop, length-drop,
}
use audit_logging.Common.Int.{pos}
use audit_logging.Text.{Text}
use audit_logging.Text.Decimal.{max_int64}
use audit_logging.Server.Model.{Result, ok, err, Entry, LogQuery, LogQueryResult}
use audit_logging.Server.Cursor.{encode_cursor, decode_cursor, decode_cursor-encode_cursor}
use audit_logging.Server.Window.{behind, last_cursor, page_of}

-- The indexes rise, from above `lo` on.
abbrev pub Ascending : ℕ → List Entry → Type 0
Ascending lo [] = Unit
Ascending lo (e ∷ es) = (lo < e.index) × Ascending e.index es

abbrev pub Small : List Entry → Type 0
Small es = All (λ e. e.index ≤ max_int64) es

-- What one page is put in front of, by the cursor that came with it.
put_first : List Entry → Option (List Entry) → Option (List Entry)
put_first items none = none
put_first items (some rest) = some (items ++ rest)

go_on : List Entry → (ℕ → Option (List Entry)) → Result ℕ → Option (List Entry)
go_on items next (err x) = none
go_on items next (ok index) = put_first items (next index)

follow : List Entry → (ℕ → Option (List Entry)) → Option Text → Option (List Entry)
follow items next none = some items
follow items next (some cursor) = go_on items next (decode_cursor cursor)

-- what follows an answer
answered : (ℕ → Option (List Entry)) → Result LogQueryResult → Option (List Entry)
unfolding follow
answered next (err x) = none
answered next (ok page) = follow page.items next page.next_cursor

-- One request for each page; `none` if the requests do not end within the fuel, or a request fails or a
-- cursor is refused.
unfoldable pub read_all : ℕ → (LogQuery → Result LogQueryResult) → LogQuery → Option (List Entry)
unfolding put_first go_on answered
read_all zero ask q = none
read_all (suc fuel) ask q =
    answered (λ index. read_all fuel ask (record q { after_index = index })) (ask q)

Ascending-weaken : (lo hi : ℕ) (es : List Entry) → lo ≤ hi → Ascending hi es → Ascending lo es
Ascending-weaken lo hi [] h a = tt
Ascending-weaken lo hi (e ∷ es) h (a, as') = (omega arith, as')

Ascending-select :
    (p : Entry → Bool) (lo : ℕ) (es : List Entry) → Ascending lo es → Ascending lo (select p es)
Ascending-select p lo [] a = tt
Ascending-select p lo (e ∷ es) (a, b) = elim (Bool-cases (p e)) [
  | inl h ↦ rw h (a, Ascending-select p e.index es b)
  | inr h ↦ rw h (Ascending-select p lo es (Ascending-weaken lo e.index es (omega arith) b))
]

All-select :
    (P : Entry → Type 0) (p : Entry → Bool) (es : List Entry) → All P es → All P (select p es)
All-select P p [] a = tt
All-select P p (e ∷ es) (a, b) = elim (Bool-cases (p e)) [
  | inl h ↦ rw h (a, All-select P p es b)
  | inr h ↦ rw h (All-select P p es b)
]

-- Nothing is left out of a list that lies behind the cursor, and what is left lies behind it.
behind-Ascending : (lo hi : ℕ) (es : List Entry) → lo ≤ hi → Ascending hi es → behind lo es ≡ es
behind-Ascending lo hi [] h a = refl
behind-Ascending lo hi (e ∷ es) h (a, b) =
    rw (lt→ltb lo e.index (omega arith))
      (ap (◌∷◌ e) (behind-Ascending lo e.index es (omega arith) b))

Ascending-behind :
    (lo after : ℕ) (es : List Entry) → Ascending lo es → Ascending after (behind after es)
Ascending-behind lo after [] a = tt
Ascending-behind lo after (e ∷ es) (a, b) = elim (Bool-cases (ltb after e.index)) [
  | inl h ↦
      let k = ltb→lt after e.index h in
      rw h (rw (behind-Ascending after e.index es (omega arith) b) (k, b))
  | inr h ↦ rw h (Ascending-behind e.index after es b)
]

behind-behind : (lo hi : ℕ) (es : List Entry) → lo ≤ hi → behind hi (behind lo es) ≡ behind hi es
behind-behind lo hi [] h = refl
behind-behind lo hi (e ∷ es) h = ground (arith, behind-behind lo hi es h)

behind_cons :
    (after : ℕ) (e : Entry) (es : List Entry)
    → e.index ≤ after
    → behind after (e ∷ es) ≡ behind after es
behind_cons after e es h = ground arith

-- Where a page of `n + 1` entries ends before the list does.
record Cut (lo n : ℕ) (es : List Entry) : Type 0 where
  index : ℕ
  above : lo < index
  small : index ≤ max_int64
  cursor : last_cursor (take (suc n) es) ≡ some (encode_cursor index)
  rest : behind index es ≡ drop (suc n) es

cut : (lo n : ℕ) (es : List Entry) → Ascending lo es → Small es → suc n < length es → Cut lo n es
cut lo n [] a s h = absurd (omega arith)
cut lo zero (e ∷ es) (a, b) s h = record {
  index = e.index;
  above = a;
  small = s.0;
  cursor = refl;
  rest =
      behind_cons e.index e es (omega arith) ∙ behind-Ascending e.index e.index es (omega arith) b;
}
cut lo (suc n) (e ∷ []) a s h = absurd (omega arith)
cut lo (suc n) (e ∷ f ∷ es) (a, b) s h =
    let c = cut e.index n (f ∷ es) b s.1 (omega arith) in
    record {
      index = c.index;
      above = omega (arith, c.above);
      small = c.small;
      cursor = c.cursor;
      rest = behind_cons c.index e (f ∷ es) (omega (arith, c.above)) ∙ c.rest;
    }

take_nil : (n : ℕ) → take {A = Entry} n [] ≡ []
take_nil zero = refl
take_nil (suc n) = refl

take_all : (n : ℕ) (es : List Entry) → length es ≤ n → take n es ≡ es
take_all n [] h = take_nil n
take_all zero (e ∷ es) h = absurd (omega arith)
take_all (suc n) (e ∷ es) h = ap (◌∷◌ e) (take_all n es (omega arith))

-- The query for pages of `n + 1` entries behind an index.
abbrev pub paged : LogQuery → ℕ → ℕ → LogQuery
paged q n after = record q { limit = pos (suc n); offset = pos 0; after_index = after }

page_last :
    (q : LogQuery) (n after : ℕ) (es : List Entry) (m : Entry → Bool)
    → length (behind after (select m es)) ≤ suc n
    → (page_of m (paged q n after) es).next_cursor ≡ none
page_last q n after es m h = ground arith

page_on :
    (q : LogQuery) (n after : ℕ) (es : List Entry) (m : Entry → Bool)
    → suc n < length (behind after (select m es))
    → (page_of m (paged q n after) es).next_cursor
      ≡ last_cursor (take (suc n) (behind after (select m es)))
page_on q n after es m h = ground arith

follow_cursor :
    (items : List Entry) (next : ℕ → Option (List Entry)) (index : ℕ) (rest : List Entry)
    → index ≤ max_int64
    → next index ≡ some rest
    → follow items next (some (encode_cursor index)) ≡ some (items ++ rest)
unfolding follow go_on put_first
follow_cursor items next index rest h k =
    ap (go_on items next) (decode_cursor-encode_cursor index h) ∙ ap (put_first items) k

module _ (matching : LogQuery → Entry → Bool) (q : LogQuery) (n : ℕ) (es : List Entry)
    (stable : (after : ℕ) → matching (paged q n after) ≡ matching q) (rising : Ascending 0 es)
    (small : Small es) where
  abbrev page : LogQuery → LogQueryResult
  page r = page_of (matching r) r es

  abbrev ask : LogQuery → Result LogQueryResult
  ask r = ok (page r)

  abbrev todo : ℕ → List Entry
  todo after = behind after (select (matching q) es)

  -- The page that the store answers with.
  ask-items : (after : ℕ) → (page (paged q n after)).items ≡ take (suc n) (todo after)
  ask-items after = ap (λ m. (page_of m (paged q n after) es).items) (stable after)

  ask-next_cursor :
      (after : ℕ)
      → (page (paged q n after)).next_cursor
        ≡ (page_of (matching q) (paged q n after) es).next_cursor
  ask-next_cursor after = ap (λ m. (page_of m (paged q n after) es).next_cursor) (stable after)

  todo-Ascending : (after : ℕ) → Ascending after (todo after)
  todo-Ascending after = Ascending-behind 0 after _ (Ascending-select (matching q) 0 es rising)

  todo-Small : (after : ℕ) → Small (todo after)
  todo-Small after = All-select _ _ _ (All-select _ (matching q) es small)

  abbrev next : ℕ → ℕ → Option (List Entry)
  next fuel index = read_all fuel ask (paged q n index)

  -- The same for the specification's pages.
  pub pages_of_complete :
      (fuel after : ℕ)
      → length (todo after) < fuel
      → read_all fuel ask (paged q n after) ≡ some (todo after)
  unfolding read_all
  pages_of_complete zero after h = absurd (omega arith)
  pages_of_complete (suc fuel) after h = elim (dec_lt (suc n) (length (todo after))) [
    | no k ↦
        ap₂ (λ (items : List Entry) (cursor : Option Text). follow items (next fuel) cursor)
          (ask-items after ∙ take_all (suc n) (todo after) (omega arith))
          (ask-next_cursor after ∙ page_last q n after es (matching q) (omega arith))
    | yes k ↦
        let c = cut after n (todo after) (todo-Ascending after) (todo-Small after) k in
        let rest =
          sym (behind-behind after c.index (select (matching q) es) (omega (arith, c.above)))
          ∙ c.rest in
        ap₂ (λ (items : List Entry) (cursor : Option Text). follow items (next fuel) cursor)
          (ask-items after) (ask-next_cursor after ∙ page_on q n after es (matching q) k ∙ c.cursor)
        ∙ follow_cursor _ (next fuel) c.index (todo c.index) c.small (
            pages_of_complete fuel c.index
              (omega (arith, ap length rest, length-drop (suc n) (todo after))))
        ∙ ap (λ (r : List Entry). some (take (suc n) (todo after) ++ r)) rest
        ∙ ap some (take-append-drop (suc n) (todo after))
  ]
