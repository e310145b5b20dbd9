-- ===== src/Shared/Mongo.antt =====
-- The MongoDB driver, which the repositories call through mongoose, as an interface. A collection
-- is the list of its documents in natural order; a filter and an update are functions on them.
-- `IsMongo` states what the driver documents; `driver` is one that meets it. The methods of
-- src/shared/repositories/_base.repository.ts are defined over the interface.
use cashfb_backend.Prelude.{
  ℕ, ◌≡◌, refl, Bool, Option, none, some, List, [], ◌∷◌, ◌++◌, any, keep, tally, first,
  change_first, change_all, not, is_some, if◌then◌else◌,
}
use cashfb_backend.Shared.Exec.{Result, ok, err}

pub record Mongo : Type 1 where
  -- `findOne`, `find`, `countDocuments`
  pub find_one : (D : Type 0) → (D → Bool) → List D → Option D
  pub find : (D : Type 0) → (D → Bool) → List D → List D
  pub count : (D : Type 0) → (D → Bool) → List D → ℕ
  -- insertion under a unique index, by the test that two documents share its key; `none` is E11000
  pub insert : (D : Type 0) → (D → D → Bool) → D → List D → Option (List D)
  -- `findOneAndUpdate` with `new: false`: the document as it was, and the collection
  pub find_one_and_update : (D : Type 0) → (D → Bool) → (D → D) → List D → Option D × List D
  -- the same with `upsert: true` and only a `$setOnInsert`: the document that was there, and the
  -- collection, to which the new document is added if none was
  pub find_or_insert : (D : Type 0) → (D → Bool) → D → List D → Option D × List D
  -- the same with `upsert: true` and an update of the document that is there
  pub upsert : (D : Type 0) → (D → Bool) → (D → D) → D → List D → List D
  pub update_many : (D : Type 0) → (D → Bool) → (D → D) → List D → List D
  pub delete_many : (D : Type 0) → (D → Bool) → List D → List D
  -- `session.withTransaction`: a callback that throws leaves no write behind
  pub with_transaction : (S A : Type 0) → (S → Result A × S) → S → Result A × S

-- insertion at the end of the natural order
abbrev pub insert_unique : {D : Type 0} → (D → D → Bool) → D → List D → Option (List D)
insert_unique clash d ds = if any (clash d) ds then none else some (ds ++ d ∷ [])

abbrev pub insert_unless_found : {D : Type 0} → (D → Bool) → D → List D → Option D × List D
insert_unless_found p d ds = elim (first p ds) [
  | none ↦ (none, ds ++ d ∷ [])
  | some old ↦ (some old, ds)
]

abbrev pub change_or_insert : {D : Type 0} → (D → Bool) → (D → D) → D → List D → List D
change_or_insert p f d ds = if any p ds then change_first p f ds else ds ++ d ∷ []

abbrev pub commit_or_abort : {S A : Type 0} → (S → Result A × S) → S → Result A × S
commit_or_abort body s = let (r, s') = body s in elim r [ ok a ↦ (ok a, s') | err e ↦ (err e, s) ]

abbrev pub driver : Mongo
driver = record {
  find_one = λ D p ds. first p ds;
  find = λ D p ds. keep p ds;
  count = λ D p ds. tally p ds;
  insert = λ D clash d ds. insert_unique clash d ds;
  find_one_and_update = λ D p f ds. (first p ds, change_first p f ds);
  find_or_insert = λ D p d ds. insert_unless_found p d ds;
  upsert = λ D p f d ds. change_or_insert p f d ds;
  update_many = λ D p f ds. change_all p f ds;
  delete_many = λ D p ds. keep (λ d. not (p d)) ds;
  with_transaction = λ S A body s. commit_or_abort body s;
}

-- The documented behaviour that the services rely on.
pub record IsMongo (m : Mongo) : Type 1 where
  -- the first match in natural order; every match; how many match
  pub find_one_lem : (D : Type 0) (p : D → Bool) (ds : List D) → m.find_one D p ds ≡ first p ds
  pub find_lem : (D : Type 0) (p : D → Bool) (ds : List D) → m.find D p ds ≡ keep p ds
  pub count_lem : (D : Type 0) (p : D → Bool) (ds : List D) → m.count D p ds ≡ tally p ds
  -- a duplicate of an indexed key is refused, anything else is added
  pub insert_lem :
      (D : Type 0) (clash : D → D → Bool) (d : D) (ds : List D)
      → m.insert D clash d ds ≡ insert_unique clash d ds
  -- one matching document at most is changed, atomically
  pub find_one_and_update_lem :
      (D : Type 0) (p : D → Bool) (f : D → D) (ds : List D)
      → m.find_one_and_update D p f ds ≡ (first p ds, change_first p f ds)
  -- an atomic insertion unless a document matches, which then stays as it is
  pub find_or_insert_lem :
      (D : Type 0) (p : D → Bool) (d : D) (ds : List D)
      → m.find_or_insert D p d ds ≡ insert_unless_found p d ds
  -- a change of the document that matches, or else the insertion
  pub upsert_lem :
      (D : Type 0) (p : D → Bool) (f : D → D) (d : D) (ds : List D)
      → m.upsert D p f d ds ≡ change_or_insert p f d ds
  pub update_many_lem :
      (D : Type 0) (p : D → Bool) (f : D → D) (ds : List D)
      → m.update_many D p f ds ≡ change_all p f ds
  pub delete_many_lem :
      (D : Type 0) (p : D → Bool) (ds : List D) → m.delete_many D p ds ≡ keep (λ d. not (p d)) ds
  pub with_transaction_lem :
      (S A : Type 0) (body : S → Result A × S) (s : S)
      → m.with_transaction S A body s ≡ commit_or_abort body s

pub driver-IsMongo : IsMongo driver
driver-IsMongo = record {
  find_one_lem = λ D p ds. refl;
  find_lem = λ D p ds. refl;
  count_lem = λ D p ds. refl;
  insert_lem = λ D clash d ds. refl;
  find_one_and_update_lem = λ D p f ds. refl;
  find_or_insert_lem = λ D p d ds. refl;
  upsert_lem = λ D p f d ds. refl;
  update_many_lem = λ D p f ds. refl;
  delete_many_lem = λ D p ds. refl;
  with_transaction_lem = λ S A body s. refl;
}

-- The documented behaviour leaves nothing open, so a theorem about `driver` serves every driver.
pub Mongo-eq : {m : Mongo} → IsMongo m → m ≡ driver
Mongo-eq {m} h = λ i. record {
  find_one = λ D p ds. h.find_one_lem D p ds i;
  find = λ D p ds. h.find_lem D p ds i;
  count = λ D p ds. h.count_lem D p ds i;
  insert = λ D clash d ds. h.insert_lem D clash d ds i;
  find_one_and_update = λ D p f ds. h.find_one_and_update_lem D p f ds i;
  find_or_insert = λ D p d ds. h.find_or_insert_lem D p d ds i;
  upsert = λ D p f d ds. h.upsert_lem D p f d ds i;
  update_many = λ D p f ds. h.update_many_lem D p f ds i;
  delete_many = λ D p ds. h.delete_many_lem D p ds i;
  with_transaction = λ S A body s. h.with_transaction_lem S A body s i;
}

module _ (m : Mongo) {D : Type 0} where
  -- `findOneAndUpdate` with `new: true`
  abbrev pub find_and_update : (D → Bool) → (D → D) → List D → Option D × List D
  find_and_update p f ds =
      let (old, ds') = m.find_one_and_update D p f ds in
      (elim old [ none ↦ none | some d ↦ some (f d) ], ds')

  -- `updateOne`: whether a document was found, and the collection
  abbrev pub update_one : (D → Bool) → (D → D) → List D → Bool × List D
  update_one p f ds = let (old, ds') = m.find_one_and_update D p f ds in (is_some old, ds')
