-- ===== src/Ledger/Transactions/Pages.antt =====
-- transaction.service.ts `list`: what a client collects that follows the cursors.
use aegis_shield_phase.Prelude.{
  ℕ, zero, suc, ◌+◌, ◌≤◌, ◌<◌, ◌≡◌, refl, ◌∙◌, sym, ap, Bool, true, false, ◌&&◌, Option, none, some,
  List, [], ◌∷◌, ◌++◌, arith, inl, inr, ltb, ltb→lt, ◌==◌, any, length, take, drop, length-append,
  Bool-cases, ==_refl, ok, err,
}
use mathlib.Core.List.{append_assoc}
use aegis_shield_phase.Ledger.Schema.{Ident, Chars, Db}
use aegis_shield_phase.Ledger.Transactions.{
  CustomerTransactionSummary, Cursor, TransactionHistoryQuery, HistoryTexts, History, history,
  filtered, decode_cursor, encode_cursor, index_after, start_of, last, cursor_of, filter_text,
  page_from, list,
}

-- Two transactions that a cursor does not tell apart.
abbrev pub same_place : CustomerTransactionSummary → CustomerTransactionSummary → Bool
same_place a b = a.display_reference == b.display_reference && a.posted_at == b.posted_at

abbrev pub IsDistinct : List CustomerTransactionSummary → Type 0
IsDistinct [] = Unit
IsDistinct (x ∷ xs) = (any (same_place x) xs ≡ false) × IsDistinct xs

any_middle :
    {A : Type 0} (p : A → Bool) (xs ys : List A) (t : A)
    → any p (xs ++ t ∷ ys) ≡ false
    → p t ≡ false
any_middle p [] ys t h = ground arith
any_middle p (x ∷ xs) ys t h = ground (arith, any_middle p xs ys t)

index_after-middle :
    (f : Ident) (pre post : List CustomerTransactionSummary) (t : CustomerTransactionSummary)
    → IsDistinct (pre ++ t ∷ post)
    → index_after (cursor_of f t) (pre ++ t ∷ post) ≡ suc (length pre)
index_after-middle f [] post t d = rw (==_refl t.display_reference, ==_refl t.posted_at) refl
index_after-middle f (x ∷ pre) post t d =
    let apart = any_middle (same_place x) pre post t d.0 in
    rw (apart, index_after-middle f pre post t d.1) (ground arith)

drop-append : {A : Type 0} (xs ys : List A) → drop (length xs) (xs ++ ys) ≡ ys
drop-append [] ys = refl
drop-append (x ∷ xs) ys = drop-append xs ys

take_all : {A : Type 0} (n : ℕ) (xs : List A) → length xs ≤ n → take n xs ≡ xs
take_all zero [] h = refl
take_all zero (x ∷ xs) h = absurd (omega arith)
take_all (suc n) [] h = refl
take_all (suc n) (x ∷ xs) h = ap (λ ys. x ∷ ys) (take_all n xs (omega (arith, h)))

take_middle :
    {A : Type 0} (init post : List A) (t : A)
    → take (suc (length init)) (init ++ t ∷ post) ≡ init ++ t ∷ []
take_middle [] post t = refl
take_middle (x ∷ init) post t = ap (λ ys. x ∷ ys) (take_middle init post t)

last-append : {A : Type 0} (xs : List A) (t : A) → last (xs ++ t ∷ []) ≡ some t
last-append [] t = refl
last-append (x ∷ []) t = refl
last-append (x ∷ y ∷ xs) t = last-append (y ∷ xs) t

-- A list that is longer than a page, cut at the page's last element.
record Cut {A : Type 0} (n : ℕ) (xs : List A) : Type 0 where
  init : List A
  tail : A
  post : List A
  whole : xs ≡ init ++ tail ∷ post
  size : n ≡ suc (length init)

cut : {A : Type 0} (n : ℕ) (xs : List A) → 0 < n → n < length xs → Cut n xs
cut zero xs h k = absurd (omega arith)
cut (suc n) [] h k = absurd (omega arith)
cut (suc zero) (x ∷ xs) h k = record { init = []; tail = x; post = xs; whole = refl; size = refl }
cut (suc (suc n)) (x ∷ xs) h k =
    let c = cut (suc n) xs (omega arith) (omega arith) in
    record {
      init = x ∷ c.init;
      tail = c.tail;
      post = c.post;
      whole = ap (λ ys. x ∷ ys) c.whole;
      size = ap suc c.size;
    }

page_size_of :
    (n : ℕ) (done rest : List CustomerTransactionSummary)
    → take n (drop (length done) (done ++ rest)) ≡ take n rest
page_size_of n done rest = ap (take n) (drop-append done rest)

module _ (texts : HistoryTexts) (f : Ident) (done : List CustomerTransactionSummary) where
  page_last :
      (n : ℕ) (rest : List CustomerTransactionSummary)
      → length rest ≤ n
      → page_from texts f n (length done) (done ++ rest)
        ≡ record { transactions = rest; next_cursor = none }
  unfolding page_from
  page_last n rest h =
      let shown = page_size_of n done rest ∙ take_all n rest h in
      let full : ltb (length done + length rest) (length (done ++ rest)) ≡ false =
        ground (arith, length-append {0} done rest) in
      rw (shown, full) refl

  page_more :
      (init post : List CustomerTransactionSummary) (t : CustomerTransactionSummary)
      → 0 < length post
      → page_from texts f (suc (length init)) (length done) (done ++ (init ++ t ∷ post)) ≡ record {
        transactions = init ++ t ∷ [];
        next_cursor = some (encode_cursor texts (cursor_of f t));
      }
  unfolding page_from
  page_more init post t h =
      let shown =
        page_size_of (suc (length init)) done (init ++ t ∷ post) ∙ take_middle init post t in
      let more : ltb (length done + length (init ++ t ∷ [])) (length (done ++ (init ++ t ∷ post)))
          ≡ true =
        ground (
          arith,
          length-append {0} done (init ++ t ∷ post),
          length-append {0} init (t ∷ post),
          length-append {0} init (t ∷ []),
        ) in
      rw (shown, more, last-append init t) refl

regroup :
    {A : Type 0} (xs ys zs : List A) (t : A) → (xs ++ ys) ++ t ∷ zs ≡ (xs ++ (ys ++ t ∷ [])) ++ zs
regroup xs ys zs t = simp append_assoc

length_next :
    {A : Type 0} (xs ys : List A) (t : A) → length (xs ++ (ys ++ t ∷ [])) ≡ suc (length (xs ++ ys))
length_next [] [] t = refl
length_next [] (y ∷ ys) t = ap suc (length_next [] ys t)
length_next (x ∷ xs) ys t = ap suc (length_next xs ys t)

-- A client that asks for pages until one has no cursor, with at most `fuel` requests.
abbrev pub collect :
    HistoryTexts
    → Ident
    → Ident
    → TransactionHistoryQuery
    → Db
    → ℕ
    → Option Chars
    → Option (List CustomerTransactionSummary)
collect texts customer_id account_id query db zero cursor = none
collect texts customer_id account_id query db (suc fuel) cursor =
    elim (list texts customer_id account_id (record query { cursor = cursor }) db) [
      | err e ↦ none
      | ok page ↦ elim page.next_cursor [
        | none ↦ some page.transactions
        | some next ↦ elim (collect texts customer_id account_id query db fuel (some next)) [
          | none ↦ none
          | some later ↦ some (page.transactions ++ later)
        ]
      ]
    ]

module _ (texts : HistoryTexts) (customer_id account_id : Ident) (query : TransactionHistoryQuery)
    (db : Db) (h : History) (read : history texts customer_id account_id db ≡ ok h) where
  -- A cursor that stands at a position of the filtered transactions.
  record IsAt (o : Option Chars) (k : ℕ) : Type 0 where
    cursor : Option Cursor
    decoded : decode_cursor texts o (filter_text texts query) ≡ ok cursor
    starts : start_of cursor (filtered query h.transactions) ≡ ok k

  list-page_from :
      (o : Option Chars) (k : ℕ)
      → IsAt o k
      → list texts customer_id account_id (record query { cursor = o }) db
        ≡ ok (
            page_from texts
              (filter_text texts query)
              query.page_size
              k
              (filtered query h.transactions))
  unfolding list filtered
  list-page_from o k at_k = rw (read, at_k.decoded, at_k.starts) refl

  IsAt-next :
      ((c : Cursor) → texts.parse_cursor (encode_cursor texts c) ≡ some c)
      → IsDistinct (filtered query h.transactions)
      → (pre post : List CustomerTransactionSummary) (t : CustomerTransactionSummary)
      → filtered query h.transactions ≡ pre ++ t ∷ post
      → IsAt (some (encode_cursor texts (cursor_of (filter_text texts query) t))) (suc (length pre))
  unfolding decode_cursor start_of
  IsAt-next reads distinct pre post t whole =
      let f = filter_text texts query in
      let index : index_after (cursor_of f t) (filtered query h.transactions) ≡ suc (length pre) =
        ap (index_after (cursor_of f t)) whole
        ∙ index_after-middle f pre post t (rw whole at distinct) in
      record {
        cursor = some (cursor_of f t);
        decoded = rw (decode_cursor, reads (cursor_of f t), ==_refl f) refl;
        starts = rw index (ground arith);
      }

  -- From a position on, a client collects what is left.
  collect_from :
      0 < query.page_size
      → ((c : Cursor) → texts.parse_cursor (encode_cursor texts c) ≡ some c)
      → IsDistinct (filtered query h.transactions)
      → (fuel : ℕ) (done rest : List CustomerTransactionSummary) (o : Option Chars)
      → filtered query h.transactions ≡ done ++ rest
      → IsAt o (length done)
      → length rest < fuel
      → collect texts customer_id account_id query db fuel o ≡ some rest
  collect_from size reads distinct zero done rest o whole at_o enough = absurd (omega arith)
  collect_from size reads distinct (suc fuel) done rest o whole at_o enough =
      let f = filter_text texts query in
      let n = query.page_size in
      let asked =
        list-page_from o (length done) at_o
        ∙ ap (λ items. ok (page_from texts f n (length done) items)) whole in
      elim (Bool-cases (ltb n (length rest))) [
        | inr end ↦
            rw (asked ∙ ap (λ r. ok r) (page_last texts f done n rest (ground arith)), collect) refl
        | inl more ↦
            let c = cut n rest size (ltb→lt n (length rest) more) in
            let whole' : filtered query h.transactions ≡ (done ++ c.init) ++ c.tail ∷ c.post =
              whole
              ∙ ap (λ ys. done ++ ys) c.whole
              ∙ sym (append_assoc done c.init (c.tail ∷ c.post)) in
            let sizes : length rest ≡ length c.init + suc (length c.post) =
              ap length c.whole ∙ length-append c.init (c.tail ∷ c.post) in
            let at_next : IsAt (some (encode_cursor texts (cursor_of f c.tail)))
                (length (done ++ (c.init ++ c.tail ∷ []))) =
              rw (length_next done c.init c.tail)
                (IsAt-next reads distinct (done ++ c.init) c.post c.tail whole') in
            let later =
              collect_from size reads distinct fuel (done ++ (c.init ++ c.tail ∷ [])) c.post
                (some (encode_cursor texts (cursor_of f c.tail)))
                (whole' ∙ regroup done c.init c.post c.tail) at_next (omega (arith, sizes)) in
            let page =
              ap (λ items. page_from texts f n (length done) (done ++ items)) c.whole
              ∙ ap (λ k. page_from texts f k (length done) (done ++ (c.init ++ c.tail ∷ c.post)))
                  c.size
              ∙ page_more texts f done c.init c.post c.tail (ground (arith, sizes, c.size)) in
            rw (asked ∙ ap (λ r. ok r) page, collect, later)
              (ap some (append_assoc c.init (c.tail ∷ []) c.post ∙ sym c.whole))
      ]

-- A client that follows the cursors from the first page collects the filtered history, every item
-- once and in its order, in one request more than there are items at most: if a page may hold an
-- item, a cursor's text is read back as the cursor, and no two items share their displayed
-- reference and instant.
pub collect_all :
    (texts : HistoryTexts) (customer_id account_id : Ident) (query : TransactionHistoryQuery)
    (db : Db) (h : History)
    → history texts customer_id account_id db ≡ ok h
    → 0 < query.page_size
    → ((c : Cursor) → texts.parse_cursor (encode_cursor texts c) ≡ some c)
    → IsDistinct (filtered query h.transactions)
    → collect texts customer_id account_id query db
        (suc (length (filtered query h.transactions)))
        none
      ≡ some (filtered query h.transactions)
unfolding decode_cursor start_of
collect_all texts customer_id account_id query db h read size reads distinct =
    collect_from texts customer_id account_id query db h read size reads distinct
      (suc (length (filtered query h.transactions))) [] (filtered query h.transactions) none refl
      (record { cursor = none; decoded = refl; starts = refl }) (omega arith)
