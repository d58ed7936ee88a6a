-- ===== src/Repository/Users.antt =====
-- backend/repository/user_repository.go and user_session_repository.go: the operations of pgStore on
-- accounts and stored logins.
use blackjack.Prelude.{String, str_eq, leb}
use blackjack.Prelude.Result.{Result, ◌>>=◌}
use blackjack.Model.Room.{Time}
use blackjack.Model.Account.{User, Session}
use blackjack.Store.{Read, Write}
use blackjack.Repository.Convert.{
  user_record_from_domain, user_record_to_domain, auth_session_record_from_domain,
  auth_session_record_to_domain,
}
use blackjack.Repository.Gorm.{Database, Answer, unordered, mapped, written}

abbrev pub mapped_write : {A Db : Type 0} → Answer A × Db → Result A × Db
mapped_write (a, db) = (mapped a, db)

module _ (g : Database) where
  unfoldable pub create_user : User → Write g.Db (Unit {0})
  create_user user db = mapped_write (g.users.create (user_record_from_domain user) db)

  unfoldable pub get_user_by_username : String → Read g.Db User
  get_user_by_username username db =
      mapped (g.users.first (λ rec. str_eq rec.username username) unordered db)
      >>= user_record_to_domain

  unfoldable pub get_user_by_id : String → Read g.Db User
  get_user_by_id user_id db =
      mapped (g.users.first (λ rec. str_eq rec.id user_id) unordered db) >>= user_record_to_domain

  unfoldable pub upsert_session : Session → Write g.Db (Unit {0})
  upsert_session session db = written (g.sessions.save (auth_session_record_from_domain session) db)

  unfoldable pub get_auth_session : String → Read g.Db Session
  get_auth_session session_id db =
      mapped (g.sessions.first (λ rec. str_eq rec.id session_id) unordered db)
      >>= auth_session_record_to_domain

  unfoldable pub delete_session : String → Write g.Db (Unit {0})
  delete_session session_id db = written (g.sessions.delete (λ rec. str_eq rec.id session_id) db)

  unfoldable pub delete_sessions_by_user_id : String → Write g.Db (Unit {0})
  delete_sessions_by_user_id user_id db =
      written (g.sessions.delete (λ rec. str_eq rec.user_id user_id) db)

  unfoldable pub delete_expired_sessions : Time → Write g.Db (Unit {0})
  delete_expired_sessions now db = written (g.sessions.delete (λ rec. leb rec.expires_at now) db)
