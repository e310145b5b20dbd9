-- ===== src/Redeem/Admin.antt =====
-- src/modules/redeem-codes/redeem-codes.admin.service.ts and redeem-codes.csv.ts: codes are uploaded
-- in batches, published to a post, and voided. A code's text is a number that stands for the
-- normalised string; hashing and encryption are parameters.
pub mod Upload
pub mod Publishing
use cashfb_backend.Prelude.{
  ℕ, zero, suc, Bool, true, false, Option, none, some, List, [], ◌∷◌, ◌++◌, ◌+◌, ◌*◌, ◌==◌, ◌&&◌,
  ◌||◌, not, ltb, any, map, length, or_default, if◌then◌else◌,
}
use cashfb_backend.Shared.Errors.{AppError}
use cashfb_backend.Shared.Exec.{
  Exec, Result, ok, err, pure, throw, gets, or_throw, update, modify, throw_if, ◌>>=◌, ◌>>◌,
}
use cashfb_backend.Shared.Mongo.{Mongo, find_and_update, update_one}
use cashfb_backend.Shared.Tier.{Tier}
use cashfb_backend.Wallet.{Post}
use cashfb_backend.Wallet.Posts.{post_has_id}
use cashfb_backend.Redeem.{
  Store, RedeemCode, CodeStatus, RedeemCodeBatch, BatchStatus, code_has_id, is_available,
}

pub data SkipReason : Type 0 where
  duplicate_in_file invalid_format invalid_denomination duplicate_in_db : SkipReason

-- a record of `csv-parse`: the trimmed upper-case code, its length, and what `Number.parseInt` makes
-- of the denomination (`none` is NaN; a value that is not positive is 0)
pub record RawRow : Type 0 where
  pub code : ℕ
  pub code_length : ℕ
  pub denomination : Option ℕ

pub record ParsedCsvRow : Type 0 where
  pub row_number : ℕ
  pub code : ℕ

pub record ParsedCsvSkip : Type 0 where
  pub row : ℕ
  pub code : ℕ
  pub reason : SkipReason

pub record CsvParseResult : Type 0 where
  pub valid : List ParsedCsvRow
  pub skipped : List ParsedCsvSkip

abbrev max_rows : ℕ
max_rows = 10000

abbrev max_code_length : ℕ
max_code_length = 64

-- the callback of `forEach`: the reason to skip the row, if there is one
unfoldable pub skip_reason : ℕ → List ℕ → RawRow → Option SkipReason
skip_reason batch_denomination seen raw =
    if (raw.code_length == 0) || ltb max_code_length raw.code_length
    then some SkipReason.invalid_format
    else elim raw.denomination [
      | none ↦ some SkipReason.invalid_format
      | some denom ↦
          if denom == 0
          then some SkipReason.invalid_format
          else if not (denom == batch_denomination)
          then some SkipReason.invalid_denomination
          else if any (λ c. c == raw.code) seen
          then some SkipReason.duplicate_in_file
          else none
    ]

-- `forEach` from row `i + 1` on; `seen` is `seenInFile`
unfoldable pub parse_rows : ℕ → ℕ → List ℕ → List RawRow → CsvParseResult
unfolding skip_reason
parse_rows batch_denomination i seen [] = record { valid = []; skipped = [] }
parse_rows batch_denomination i seen (raw ∷ rows) = elim (skip_reason batch_denomination seen raw) [
  | some reason ↦
      let rest = parse_rows batch_denomination (i + 1) seen rows in
      record {
        valid = rest.valid;
        skipped = record { row = i + 1; code = raw.code; reason = reason } ∷ rest.skipped;
      }
  | none ↦
      let rest = parse_rows batch_denomination (i + 1) (raw.code ∷ seen) rows in
      record {
        valid = record { row_number = i + 1; code = raw.code } ∷ rest.valid;
        skipped = rest.skipped;
      }
]

-- `none` if the file has too many rows
unfoldable pub parse_redeem_code_csv : ℕ → List RawRow → Option CsvParseResult
unfolding parse_rows
parse_redeem_code_csv batch_denomination records =
    if ltb max_rows (length records)
    then none
    else some (parse_rows batch_denomination 0 [] records)

pub record EncryptedRow : Type 0 where
  pub row_number : ℕ
  pub code : ℕ
  pub code_hash : ℕ
  pub ct : ℕ

pub record UploadBatchResult : Type 0 where
  pub batch_id : ℕ
  pub inserted : ℕ
  pub skipped : List ParsedCsvSkip

-- the unique index on `codeHash`
abbrev pub same_hash : RedeemCode → RedeemCode → Bool
same_hash c d = c.code_hash == d.code_hash

abbrev pub batch_has_id : ℕ → RedeemCodeBatch → Bool
batch_has_id k b = b.id == k

-- `fresh` stands for the ids that the driver gives to the documents of the batch, `encrypt` and
-- `hash` for `encryptField` and the HMAC.
module _ (m : Mongo) (fresh encrypt hash : ℕ → ℕ) where
  abbrev pub encrypt_row : ParsedCsvRow → EncryptedRow
  encrypt_row row = record {
    row_number = row.row_number;
    code = row.code;
    code_hash = hash row.code;
    ct = encrypt row.code;
  }

  abbrev pub code_document : ℕ → ℕ → EncryptedRow → RedeemCode
  code_document batch_id denomination row = record {
    id = fresh row.row_number;
    batch_id = batch_id;
    denomination = denomination;
    tier = Tier.public_tier;
    code_ct = row.ct;
    code_hash = row.code_hash;
    status = CodeStatus.available;
    post_id = none;
    published_at = none;
    first_copied_by = none;
    first_copied_at = none;
    copy_count = 0;
    claimed_by = none;
    claimed_at = none;
    voided_reason = none;
  }

  -- the insertion loop: how many were inserted, what was skipped, and the codes
  pub insert_rows :
      ℕ → ℕ → List EncryptedRow → List RedeemCode → ℕ × List ParsedCsvSkip × List RedeemCode
  insert_rows batch_id denomination [] codes = (0, [], codes)
  insert_rows batch_id denomination (row ∷ rows) codes =
      elim (m.insert RedeemCode same_hash (code_document batch_id denomination row) codes) [
        | some codes' ↦
            let (inserted, skipped, codes'') = insert_rows batch_id denomination rows codes' in
            (inserted + 1, skipped, codes'')
        | none ↦
            let (inserted, skipped, codes'') = insert_rows batch_id denomination rows codes in
            let skip : ParsedCsvSkip = record {
              row = row.row_number;
              code = row.code;
              reason = SkipReason.duplicate_in_db;
            } in
            (inserted, skip ∷ skipped, codes'')
      ]

  insert_all : ℕ → ℕ → List EncryptedRow → Store → (ℕ × List ParsedCsvSkip) × Store
  unfolding insert_rows
  insert_all batch_id denomination rows db =
      let (inserted, skipped, codes') = insert_rows batch_id denomination rows db.codes in
      ((inserted, skipped), record db { codes = codes' })

  -- `batch_id` is the id that `create` gives to the new batch.
  unfoldable pub upload_batch : ℕ → Option ℕ → List RawRow → Exec Store UploadBatchResult
  unfolding insert_all parse_redeem_code_csv
  upload_batch batch_id input_denomination records = do
    let denomination = or_default input_denomination 5000
    parsed ← or_throw AppError.thrown (parse_redeem_code_csv denomination records)
    throw_if (length parsed.valid == 0) AppError.validation
    let encrypted = map encrypt_row parsed.valid
    modify (λ (db : Store). record db {
      batches =
          db.batches
          ++ record {
            id = batch_id;
            denomination = denomination;
            count = 0;
            total_value = none;
            status = BatchStatus.staged;
          }
            ∷ [];
    })
    loop ← update (insert_all batch_id denomination encrypted)
    modify (λ (db : Store).
        let (found, batches') =
          update_one m (batch_has_id batch_id)
            (λ (b : RedeemCodeBatch). record b {
              count = loop.0;
              total_value = some (loop.0 * denomination);
            })
            db.batches in
        record db { batches = batches' })
    pure (record { batch_id = batch_id; inserted = loop.0; skipped = parsed.skipped ++ loop.1 })

pub record PublishBatchInput : Type 0 where
  pub batch_id : ℕ
  pub post_id : ℕ
  pub count : ℕ

pub record PublishBatchResult : Type 0 where
  pub published_count : ℕ
  pub batch_exhausted : Bool

abbrev pub in_stock : ℕ → RedeemCode → Bool
in_stock batch_id c = (c.batch_id == batch_id) && is_available c.status

abbrev pub publish_code : ℕ → Tier → ℕ → RedeemCode → RedeemCode
publish_code post_id tier now c = record c {
  status = CodeStatus.published;
  post_id = some post_id;
  tier = tier;
  published_at = some now;
}

module _ (m : Mongo) where
  -- the loop, with `count` turns left: how many codes were published, and the codes
  unfoldable pub publish_codes :
      (RedeemCode → RedeemCode) → ℕ → ℕ → List RedeemCode → ℕ × List RedeemCode
  publish_codes publish batch_id zero codes = (0, codes)
  publish_codes publish batch_id (suc count) codes =
      let (flipped, codes') = find_and_update m (in_stock batch_id) publish codes in
      let (published, codes'') = publish_codes publish batch_id count codes' in
      elim flipped [ none ↦ (0, codes') | some c ↦ (published + 1, codes'') ]

  publish_some : PublishBatchInput → Tier → ℕ → Store → ℕ × Store
  unfolding publish_codes
  publish_some input tier now db =
      let (published, codes') =
        publish_codes (publish_code input.post_id tier now) input.batch_id input.count db.codes in
      (published, record db { codes = codes' })

  unfoldable pub publish_batch_to_post : ℕ → PublishBatchInput → Exec Store PublishBatchResult
  unfolding publish_some
  publish_batch_to_post now input = do
    seen ← gets (λ db. m.find_one Post (post_has_id input.post_id) db.posts)
    post ← or_throw AppError.validation seen
    known ← gets (λ db. m.find_one RedeemCodeBatch (batch_has_id input.batch_id) db.batches)
    batch ← or_throw AppError.validation known
    published_count ← update (publish_some input post.tier now)
    remaining ← gets (λ db. m.count RedeemCode (in_stock input.batch_id) db.codes)
    let batch_exhausted = remaining == 0
    let next_status =
        if batch_exhausted && not (published_count == 0)
        then BatchStatus.exhausted
        else BatchStatus.live
    modify (λ (db : Store).
        let (found, batches') =
          update_one m (batch_has_id input.batch_id)
            (λ (b : RedeemCodeBatch). record b { status = next_status }) db.batches in
        record db { batches = batches' })
    pure (record { published_count = published_count; batch_exhausted = batch_exhausted })

  pub void_code : ℕ → ℕ → Store → Store
  void_code code_id reason db =
      let (found, codes') =
        update_one m (code_has_id code_id)
          (λ (c : RedeemCode). record c { status = CodeStatus.void; voided_reason = some reason })
          db.codes in
      record db { codes = codes' }
