-- ===== src/Wallet/History/Walk.antt =====
-- A client that follows `nextCursor` from page to page.
use cashfb_backend.Prelude.{
  ℕ, zero, suc, ◌+◌, ◌≡◌, ◌≤◌, ◌<◌, inl, inr, Bool, true, false, Option, none, some, List, [], ◌∷◌,
  ◌++◌, keep, take, drop, length, All, arith, refl, sym, ap, subst, ◌∙◌, ltb, Bool-cases,
}
use cashfb_backend.Shared.Exec.{ok, err}
use cashfb_backend.Wallet.History.{
  Row, CursorPayload, ListCoinTransactionsInput, list_transactions, page_after, page_filter,
  page_limit, encode_cursor, decode_cursor, before, cursor_of, of_user, last_row,
}
use cashfb_backend.Wallet.History.Sorting.{
  older, Descending, DistinctIds, insert_row, sorted_rows, sorted-Descending, keep-sorted,
  keep-last, last-All, keep-DistinctIds, kept, keep-narrow, keep-both, before-older, All-keep,
  All-sorted,
}

-- A sort of rows whose ids differ has one result: the rows in order.
abbrev pub IsSort : (List Row → List Row) → Type 0
IsSort newest_first = (rows : List Row) → DistinctIds rows → newest_first rows ≡ sorted_rows rows

-- The cursor of a row reads back after it was encoded, and the row's id passes the test of ids.
abbrev pub ReadsBack :
    (CursorPayload → ℕ) → (ℕ → Option (Option ℕ × Option ℕ)) → (ℕ → Bool) → Row → Type 0
ReadsBack to_base64 parse is_object_id r =
    (parse (to_base64 (cursor_of r)) ≡ some (some r.created_at, some r.id))
    × (is_object_id r.id ≡ true)

take_short : (n : ℕ) (xs : List Row) → length xs ≤ n → take n xs ≡ xs
take_short zero [] h = refl
take_short zero (x ∷ xs) h = absurd (omega (arith, h))
take_short (suc n) [] h = refl
take_short (suc n) (x ∷ xs) h = ap (λ (ys : List Row). x ∷ ys) (take_short n xs (omega (arith, h)))

take_long : (n : ℕ) (xs : List Row) → n ≤ length xs → length (take n xs) ≡ n
take_long zero xs h = refl
take_long (suc n) [] h = absurd (omega (arith, h))
take_long (suc n) (x ∷ xs) h = omega (arith, take_long n xs (omega (arith, h)))

take-take : (n : ℕ) (xs : List Row) → take n (take (suc n) xs) ≡ take n xs
take-take zero xs = refl
take-take (suc n) [] = refl
take-take (suc n) (x ∷ xs) = ap (λ (ys : List Row). x ∷ ys) (take-take n xs)

take-take1 : (n : ℕ) (xs : List Row) → take n (take (n + 1) xs) ≡ take n xs
take-take1 n xs =
    let next : suc n ≡ n + 1 = omega arith in
    subst (λ (k : ℕ). take n (take k xs) ≡ take n xs) next (take-take n xs)

take-drop : (n : ℕ) (xs : List Row) → take n xs ++ drop n xs ≡ xs
take-drop zero xs = refl
take-drop (suc n) [] = refl
take-drop (suc n) (x ∷ xs) = ap (λ (ys : List Row). x ∷ ys) (take-drop n xs)

length-drop : (n : ℕ) (xs : List Row) → n ≤ length xs → length (drop n xs) + n ≡ length xs
length-drop zero xs h = omega arith
length-drop (suc n) [] h = absurd (omega (arith, h))
length-drop (suc n) (x ∷ xs) h = omega (arith, length-drop n xs (omega (arith, h)))

last_there : (xs : List Row) → 1 ≤ length xs → (r : Row) × (last_row xs ≡ some r)
last_there [] h = absurd (omega (arith, h))
last_there (x ∷ []) h = (x, refl)
last_there (x ∷ y ∷ ys) h = last_there (y ∷ ys) (omega arith)

length-keep : (p : Row → Bool) (xs : List Row) → length (keep p xs) ≤ length xs
length-keep p [] = omega arith
length-keep p (x ∷ xs) = ground (arith, length-keep p xs)

length-insert : (x : Row) (ys : List Row) → length (insert_row x ys) ≡ suc (length ys)
length-insert x [] = refl
length-insert x (y ∷ ys) = ground (arith, length-insert x ys)

length-sorted : (xs : List Row) → length (sorted_rows xs) ≡ length xs
length-sorted [] = refl
length-sorted (x ∷ xs) = omega (arith, length-insert x (sorted_rows xs), length-sorted xs)

module _ (to_base64 : CursorPayload → ℕ) (parse : ℕ → Option (Option ℕ × Option ℕ))
    (is_object_id : ℕ → Bool) (newest_first : List Row → List Row) where
  -- the client: the pages from a cursor on, `none` if it gives up or is refused
  pub walk : ℕ → ListCoinTransactionsInput → List Row → Option (List Row)
  walk zero input rows = none
  walk (suc fuel) input rows =
      elim (list_transactions to_base64 parse is_object_id newest_first input rows) [
        | err e ↦ none
        | ok page ↦ elim page.next_cursor [
          | none ↦ some page.items
          | some raw ↦ elim (walk fuel (record input { cursor = some raw }) rows) [
            | none ↦ none
            | some rest ↦ some (page.items ++ rest)
          ]
        ]
      ]

  -- a cursor that was encoded decodes
  pub decoded :
      (r : Row)
      → ReadsBack to_base64 parse is_object_id r
      → decode_cursor to_base64 parse is_object_id newest_first
          (encode_cursor to_base64 parse is_object_id newest_first r)
        ≡ ok (cursor_of r)
  unfolding decode_cursor encode_cursor
  decoded r law = ground (arith, law.0, law.1)

  page_filter_of : ℕ → Option CursorPayload → Row → Bool
  page_filter_of user_id cursor =
      page_filter to_base64 parse is_object_id newest_first user_id cursor

  module _ (sort : IsSort newest_first) (user_id : ℕ) (rows : List Row)
      (distinct : DistinctIds rows) where
    rest_of : Option CursorPayload → List Row
    unfolding page_filter_of
    rest_of cursor = sorted_rows (keep (page_filter_of user_id cursor) rows)

    rest-Descending : (cursor : Option CursorPayload) → Descending (rest_of cursor)
    unfolding rest_of
    rest-Descending cursor =
        sorted-Descending (keep (page_filter_of user_id cursor) rows)
          (keep-DistinctIds (page_filter_of user_id cursor) rows distinct)

    -- the rows before a cursor, out of all
    rest-some : (c : CursorPayload) → rest_of (some c) ≡ keep (before c) (rest_of none)
    unfolding rest_of page_filter_of
    rest-some c =
        ap sorted_rows (keep-both (of_user user_id) (before c) rows)
        ∙ sym (
            keep-sorted (before c) (keep (of_user user_id) rows)
              (keep-DistinctIds (of_user user_id) rows distinct))

    -- the rows before the last of a page are those that follow the page
    rest-next :
        (n : ℕ) (cursor : Option CursorPayload) (r : Row)
        → n ≤ length (rest_of cursor)
        → last_row (take n (rest_of cursor)) ≡ some r
        → rest_of (some (cursor_of r)) ≡ drop n (rest_of cursor)
    rest-next n none r le e =
        rest-some (cursor_of r) ∙ keep-last n (rest_of none) r le e (rest-Descending none)
    rest-next n (some c) r le e =
        let inside : before c r ≡ true =
          last-All (λ x. before c x ≡ true) n (rest_of (some c)) r e
            (rw (rest-some c) (kept (before c) (rest_of none))) in
        rest-some (cursor_of r)
        ∙ (sym
              (keep-narrow (before c) (older r) (rest_of none) (λ x k. before-older c r x inside k))
            ∙ (ap (keep (older r)) (sym (rest-some c))
                ∙ keep-last n (rest_of (some c)) r le e (rest-Descending (some c))))

    fetched :
        (cursor : Option CursorPayload)
        → newest_first (keep (page_filter_of user_id cursor) rows) ≡ rest_of cursor
    unfolding rest_of
    fetched cursor =
        sort (keep (page_filter_of user_id cursor) rows)
          (keep-DistinctIds (page_filter_of user_id cursor) rows distinct)

    page_end :
        (n : ℕ) (cursor : Option CursorPayload)
        → length (rest_of cursor) ≤ n
        → page_after to_base64 parse is_object_id newest_first user_id n cursor rows
          ≡ record { items = rest_of cursor; next_cursor = none }
    unfolding page_after page_filter_of
    page_end n cursor le =
        let all_rows =
          ap (take (n + 1)) (fetched cursor)
          ∙ take_short (n + 1) (rest_of cursor) (omega (arith, le)) in
        let one_page : ltb n (length (rest_of cursor)) ≡ false = ground arith in
        rw all_rows (rw one_page refl)

    page_more :
        (n : ℕ) (cursor : Option CursorPayload) (r : Row)
        → n < length (rest_of cursor)
        → last_row (take n (rest_of cursor)) ≡ some r
        → page_after to_base64 parse is_object_id newest_first user_id n cursor rows ≡ record {
          items = take n (rest_of cursor);
          next_cursor = some (encode_cursor to_base64 parse is_object_id newest_first r);
        }
    unfolding page_after page_filter_of
    page_more n cursor r more e =
        let some_rows = ap (take (n + 1)) (fetched cursor) in
        let long : ltb n (length (take (n + 1) (rest_of cursor))) ≡ true =
          ground (arith, take_long (n + 1) (rest_of cursor) (omega (arith, more))) in
        rw some_rows (rw long (rw (take-take1 n (rest_of cursor)) (rw e refl)))

    -- a cursor that the service gave out, or none
    abbrev input_of : Option ℕ → Option Row → ListCoinTransactionsInput
    input_of limit at = record {
      user_id = user_id;
      cursor = elim at [
        | none ↦ none
        | some r ↦ some (encode_cursor to_base64 parse is_object_id newest_first r)
      ];
      limit = limit;
    }

    abbrev at_row : Option Row → Option CursorPayload
    at_row none = none
    at_row (some r) = some (cursor_of r)

    abbrev Valid : Option Row → Type 0
    Valid none = Unit
    Valid (some r) = ReadsBack to_base64 parse is_object_id r

    listed :
        (limit : Option ℕ) (at : Option Row)
        → Valid at
        → list_transactions to_base64 parse is_object_id newest_first (input_of limit at) rows
          ≡ ok (
              page_after to_base64 parse is_object_id newest_first user_id
                (page_limit limit)
                (at_row at)
                rows)
    unfolding list_transactions
    listed limit none valid = refl
    listed limit (some r) valid = ground (arith, decoded r valid)

    rest-ids :
        (at : Option CursorPayload)
        → All (ReadsBack to_base64 parse is_object_id) rows
        → All (ReadsBack to_base64 parse is_object_id) (rest_of at)
    unfolding rest_of
    rest-ids at ids =
        All-sorted (ReadsBack to_base64 parse is_object_id) (keep (page_filter_of user_id at) rows)
          (All-keep (ReadsBack to_base64 parse is_object_id) (page_filter_of user_id at) rows ids)

    limit_positive : (limit : Option ℕ) → 1 ≤ page_limit limit
    limit_positive limit = ground arith

    walked :
        All (ReadsBack to_base64 parse is_object_id) rows
        → (limit : Option ℕ) (fuel : ℕ) (at : Option Row) → Valid at
        → length (rest_of (at_row at)) < fuel
        → walk fuel (input_of limit at) rows ≡ some (rest_of (at_row at))
    unfolding walk
    walked ids limit zero at valid enough = absurd (omega (arith, enough))
    walked ids limit (suc fuel) at valid enough =
        let n = page_limit limit in
        elim (Bool-cases (ltb n (length (rest_of (at_row at))))) [
          | inr last_page ↦
              ground (arith, listed limit at valid, page_end n (at_row at) (ground arith))
          | inl more ↦
              let rest = rest_of (at_row at) in
              let long : n < length rest = ground arith in
              let (r, e) =
                last_there (take n rest)
                  (omega (arith, take_long n rest (omega (arith, long)), limit_positive limit)) in
              let next = rest-next n (at_row at) r (omega (arith, long)) e in
              let known =
                last-All (ReadsBack to_base64 parse is_object_id) n rest r e
                  (rest-ids (at_row at) ids) in
              let shorter : length (rest_of (some (cursor_of r))) < fuel = rw next (
                omega (
                  arith,
                  enough,
                  limit_positive limit,
                  length-drop n rest (omega (arith, long)),
                )) in
              ground (
                arith,
                listed limit at valid,
                page_more n (at_row at) r long e,
                walked ids limit fuel (some r) known shorter,
                next,
                take-drop n rest,
              )
        ]

  -- Where ids differ and pass the test of ids, the rows' cursors read back and the sort is one, a
  -- client that asks for page after page while none is inserted gets, with any limit and after at
  -- most one more call than there are rows, every transaction of the user once, newest first.
  pub pages_show_every_transaction :
      IsSort newest_first
      → (user_id : ℕ) (limit : Option ℕ) (rows : List Row) → DistinctIds rows
      → All (ReadsBack to_base64 parse is_object_id) rows
      → walk (suc (length rows)) (record { user_id = user_id; cursor = none; limit = limit }) rows
        ≡ some (sorted_rows (keep (of_user user_id) rows))
  unfolding rest_of page_filter_of
  pages_show_every_transaction sort user_id limit rows distinct ids =
      walked sort user_id rows distinct ids limit (suc (length rows)) none tt (
        omega
          (arith, length-sorted (keep (of_user user_id) rows), length-keep (of_user user_id) rows))
