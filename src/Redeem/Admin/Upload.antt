-- ===== src/Redeem/Admin/Upload.antt =====
-- What becomes of the rows of an upload.
use cashfb_backend.Prelude.{
  ℕ, ◌≡◌, ◌+◌, inl, inr, Option, List, [], ◌∷◌, ◌++◌, map, any, length, length-append, arith, refl,
  Option-cases, Bool-cases, or_default,
}
use cashfb_backend.Shared.Exec.{ok}
use cashfb_backend.Shared.Mongo.{Mongo, IsMongo, Mongo-eq, driver}
use cashfb_backend.Redeem.{Store, RedeemCode}
use cashfb_backend.Redeem.Admin.{
  RawRow, ParsedCsvRow, EncryptedRow, UploadBatchResult, skip_reason, parse_rows,
  parse_redeem_code_csv, insert_rows, upload_batch, same_hash, code_document, encrypt_row,
}

parsed_rows :
    (denomination i : ℕ) (seen : List ℕ) (rows : List RawRow)
    → let r = parse_rows denomination i seen rows in length r.valid + length r.skipped ≡ length rows
unfolding parse_rows
parsed_rows denomination i seen [] = refl
parsed_rows denomination i seen (raw ∷ rows) =
    elim (Option-cases (skip_reason denomination seen raw)) [
      | inl fine ↦ ground (arith, fine, parsed_rows denomination (i + 1) (raw.code ∷ seen) rows)
      | inr (reason, bad) ↦ ground (arith, bad, parsed_rows denomination (i + 1) seen rows)
    ]

length-map :
    (f : ParsedCsvRow → EncryptedRow) (rows : List ParsedCsvRow) → length (map f rows) ≡ length rows
length-map f [] = refl
length-map f (r ∷ rows) = omega (arith, length-map f rows)

module _ (fresh encrypt hash : ℕ → ℕ) where
  inserted_rows :
      (batch_id denomination : ℕ) (rows : List EncryptedRow) (codes : List RedeemCode)
      → let r = insert_rows driver fresh encrypt hash batch_id denomination rows codes in
        (r.0 + length r.1 ≡ length rows) × (length r.2 ≡ length codes + r.0)
  unfolding insert_rows
  inserted_rows batch_id denomination [] codes = (refl, omega arith)
  inserted_rows batch_id denomination (row ∷ rows) codes =
      let doc = code_document driver fresh encrypt hash batch_id denomination row in
      elim (Bool-cases (any (same_hash doc) codes)) [
        | inl known ↦
            let (a, b) = inserted_rows batch_id denomination rows codes in
            (ground (arith, known, a), ground (arith, known, b))
        | inr new ↦
            let (a, b) = inserted_rows batch_id denomination rows (codes ++ doc ∷ []) in
            (ground (arith, new, a), ground (arith, new, b, length-append codes (doc ∷ [])))
      ]

  uploaded :
      (batch_id : ℕ) (denomination : Option ℕ) (records : List RawRow) (db : Store)
      (r : UploadBatchResult)
      → (upload_batch driver fresh encrypt hash batch_id denomination records db).0 ≡ ok r
      → let db' = (upload_batch driver fresh encrypt hash batch_id denomination records db).1 in
        (r.inserted + length r.skipped ≡ length records)
        × (length db'.codes ≡ length db.codes + r.inserted)
  unfolding upload_batch parse_redeem_code_csv
  uploaded batch_id denomination records db r e =
      let d = or_default denomination 5000 in
      let parsed = parse_rows d 0 [] records in
      let rows = map (encrypt_row driver fresh encrypt hash) parsed.valid in
      let loop = insert_rows driver fresh encrypt hash batch_id d rows db.codes in
      let counts = inserted_rows batch_id d rows db.codes in
      let skips = length-append parsed.skipped loop.1 in
      let all_ = parsed_rows d 0 [] records in
      let same = length-map (encrypt_row driver fresh encrypt hash) parsed.valid in
      (ground (arith, e, counts, skips, all_, same), ground (arith, e, counts))

module _ {m : Mongo} (h : IsMongo m) (fresh encrypt hash : ℕ → ℕ) where
  -- An upload that succeeds accounts for every row of the file: it was inserted as a code or it is in
  -- the list of skipped rows; and there are as many codes more as were inserted.
  pub upload_accounts_for_rows :
      (batch_id : ℕ) (denomination : Option ℕ) (records : List RawRow) (db : Store)
      (r : UploadBatchResult)
      → (upload_batch m fresh encrypt hash batch_id denomination records db).0 ≡ ok r
      → let db' = (upload_batch m fresh encrypt hash batch_id denomination records db).1 in
        (r.inserted + length r.skipped ≡ length records)
        × (length db'.codes ≡ length db.codes + r.inserted)
  upload_accounts_for_rows = rw (Mongo-eq h) (uploaded fresh encrypt hash)
