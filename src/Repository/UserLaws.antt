-- ===== src/Repository/UserLaws.antt =====
-- The accounts in the table of users of backend/repository/user_repository.go: what `pgStore` reads of an account
-- that it has just created.
use blackjack.Prelude.{
  In, String, eq_iff, ◌≡◌, refl, sym, ap, subst, ◌∙◌, Bool, true, inl, List, ◌∷◌,
}
use blackjack.Prelude.Result.{ok, ok_unique, ◌>>=◌}
use blackjack.Model.Room.{Time}
use blackjack.Model.Account.{User}
use blackjack.Repository.Rows.{UserRecord}
use blackjack.Repository.Convert.{user_record_from_domain, user_record_to_domain}
use blackjack.Repository.Cards.{CardCodec}
use blackjack.Repository.Gorm.{Table, Database, Answer, done, failed, unordered, mapped}
use blackjack.Repository.Users
use blackjack.Repository.Pg.{pg_store}
use blackjack.Accounts.SignedUp.{KeepsAccounts}

-- The columns that PostgreSQL keeps as they are.
pub record Account : Type 0 where
  pub id : String
  pub username : String
  pub password_hash : String

abbrev pub account : UserRecord → Account
account r = record { id = r.id; username = r.username; password_hash = r.password_hash }

-- What GORM over PostgreSQL documents of the table: an insert that succeeds adds its row, a row that is found is
-- one of the table that the condition holds for, and the id and the name are unique.
pub record IsUsers {Db : Type 0} (t : Table Db UserRecord) : Type 0 where
  pub rows : Db → List Account
  pub created :
      (row : UserRecord) (db : Db)
      → (t.create row db).0 ≡ done tt
      → rows (t.create row db).1 ≡ account row ∷ rows db
  pub found :
      (p : UserRecord → Bool) (row : UserRecord) (db : Db)
      → t.first p unordered db ≡ done row
      → In (account row) (rows db) × (p row ≡ true)
  pub unique_id : (a b : Account) (db : Db) → In a (rows db) → In b (rows db) → a.id ≡ b.id → a ≡ b
  pub unique_username :
      (a b : Account) (db : Db) → In a (rows db) → In b (rows db) → a.username ≡ b.username → a ≡ b

mapped_write-done :
    {Db : Type 0} (x : Answer (Unit {0}) × Db)
    → (Users.mapped_write x).0 ≡ ok tt
    → (x.0 ≡ done tt) × ((Users.mapped_write x).1 ≡ x.1)
mapped_write-done (done tt, db) h = (refl, refl)
mapped_write-done (failed e, db) h = cc

-- The user that is read is that of a row.
read_user :
    (a : Answer UserRecord) (found : User)
    → (mapped a >>= user_record_to_domain) ≡ ok found
    → (row : UserRecord) × (a ≡ done row)
      × (found.id ≡ row.id)
      × (found.username ≡ row.username)
      × (found.password_hash ≡ row.password_hash)
unfolding user_record_to_domain
read_user (done row) found h =
    let same = sym (ok_unique refl h) in
    (
      row,
      refl,
      ap (λ (x : User). x.id) same,
      ap (λ (x : User). x.username) same,
      ap (λ (x : User). x.password_hash) same,
    )
read_user (failed e) found h = cc

module _ (g : Database) (json : CardCodec) (clock : Time) (laws : IsUsers g.users) where
  created_row :
      (user : User) (db : g.Db)
      → (Users.create_user g user db).0 ≡ ok tt
      → In (account (user_record_from_domain user)) (laws.rows (Users.create_user g user db).1)
  unfolding Users.create_user
  created_row user db h =
      let (d, moved) = mapped_write-done (g.users.create (user_record_from_domain user) db) h in
      subst (In (account (user_record_from_domain user)))
        (sym (ap laws.rows moved ∙ laws.created (user_record_from_domain user) db d)) (inl refl)

  -- `pgStore` reads an account that it has created as it was created, apart from its times, if the database does
  -- what GORM and PostgreSQL document.
  pub pg_store-KeepsAccounts : KeepsAccounts (pg_store g json clock)
  unfolding Users.get_user_by_username Users.get_user_by_id user_record_from_domain
  pg_store-KeepsAccounts = record {
    by_username = λ user found db h read.
        let (row, f, i, n, p) = read_user _ found read in
        let (m, t) = laws.found _ row _ f in
        let same =
          laws.unique_username (account row) (account (user_record_from_domain user)) _ m
            (created_row user db h) ((eq_iff row.username user.username).0 t) in
        (
          i ∙ ap (λ (x : Account). x.id) same,
          n ∙ ap (λ (x : Account). x.username) same,
          p ∙ ap (λ (x : Account). x.password_hash) same,
        );
    by_id = λ user found db h read.
        let (row, f, i, n, p) = read_user _ found read in
        let (m, t) = laws.found _ row _ f in
        let same =
          laws.unique_id (account row) (account (user_record_from_domain user)) _ m
            (created_row user db h) ((eq_iff row.id user.id).0 t) in
        (
          i ∙ ap (λ (x : Account). x.id) same,
          n ∙ ap (λ (x : Account). x.username) same,
          p ∙ ap (λ (x : Account). x.password_hash) same,
        );
  }
