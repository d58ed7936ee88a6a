-- ===== src/Tests/Users.antt =====
-- A table of users that keeps the laws: it is empty or has one row.
use blackjack.Prelude.{
  In, ◌≡◌, refl, sym, ap, ◌∙◌, Bool, true, Bool-cases, if◌then◌else◌, inl, inr, List, [], ◌∷◌,
  Option, none, some,
}
use blackjack.Repository.Rows.{UserRecord}
use blackjack.Repository.Gorm.{Table, Answer, done, failed, record_not_found, pg_error}
use blackjack.Repository.UserLaws.{Account, account, IsUsers}

abbrev insert : UserRecord → Option UserRecord → Answer (Unit {0}) × Option UserRecord
insert row none = (done tt, some row)
insert row (some old) = (failed (pg_error "23505" "duplicate key"), some old)

abbrev first : (UserRecord → Bool) → Option UserRecord → Answer UserRecord
first p none = failed record_not_found
first p (some row) = if p row then done row else failed record_not_found

abbrev users : Table (Option UserRecord) UserRecord
users = record {
  create = insert;
  save = λ row db. (done tt, some row);
  updates = λ p f db. (done 0, db);
  delete = λ p db. (done tt, db);
  first_or_create = λ p f row db. (done tt, db);
  first = λ p order db. first p db;
  first_locked = λ p order db. first p db;
  find = λ p order db. done [];
  count = λ db. done 1;
}

abbrev rows : Option UserRecord → List Account
rows none = []
rows (some row) = account row ∷ []

insert-rows :
    (row : UserRecord) (db : Option UserRecord)
    → (insert row db).0 ≡ done tt
    → rows (insert row db).1 ≡ account row ∷ rows db
insert-rows row none h = refl
insert-rows row (some old) h = cc

first-rows :
    (p : UserRecord → Bool) (row : UserRecord) (db : Option UserRecord)
    → first p db ≡ done row
    → In (account row) (rows db) × (p row ≡ true)
first-rows p row none h = cc
first-rows p row (some old) h = elim (Bool-cases (p old)) [
  | inr no_match ↦ cc (rw no_match at h)
  | inl match ↦
      let same : old ≡ row = cc (rw match at h) in
      (inl (ap account (sym same)), ap p (sym same) ∙ match)
]

only_one : (a b : Account) (db : Option UserRecord) → In a (rows db) → In b (rows db) → a ≡ b
only_one a b none m n = absurd m
only_one a b (some row) (inl e) (inl f) = e ∙ sym f
only_one a b (some row) (inl e) (inr n) = absurd n
only_one a b (some row) (inr m) n = absurd m

users_laws : IsUsers users
users_laws = record {
  rows = rows;
  created = insert-rows;
  found = first-rows;
  unique_id = λ a b db m n e. only_one a b db m n;
  unique_username = λ a b db m n e. only_one a b db m n;
}
