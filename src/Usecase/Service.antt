-- ===== src/Usecase/Service.antt =====
-- What a use case is given, and the frame of all of them: decide on what is read, then write in a
-- transaction on whatever database the other requests have left by then.
use blackjack.Prelude.{ℕ, String, ◌≡◌, refl, Option}
use blackjack.Prelude.Result.{Error, Result, ok, err, not_found, forbidden_action}
use blackjack.Model.Room.{Time}
use blackjack.Model.Hand.{HandEvaluator, RoundEngine}
use blackjack.Round.Dealer.{Marshal}
use blackjack.Store.{Write, Store, IsStore}

-- `roomService` with the hooks it calls; `sha256_hex` is hex.EncodeToString of sha256.Sum256.
pub record Service : Type 1 where
  pub store : Store
  pub evaluator : HandEvaluator
  pub engine : RoundEngine
  pub marshal : Marshal
  pub sha256_hex : String → String

-- What the outside gives to one request: the clock, a new uuid and the random source of the shuffle.
pub record Moment : Type 0 where
  pub now : Time
  pub fresh_id : String
  pub rand : ℕ → Option ℕ

-- `done` answers without a transaction.
pub data Prepared (P A : Type 0) : Type 0 where
  done : A → Prepared P A
  todo : P → Prepared P A

infixr 5 ◌>>>=◌ ◌>>>◌
-- Writes one after the other; the first error ends them.
abbrev pub chain : {Db A B : Type 0} → (A → Write Db B) → Result A × Db → Result B × Db
chain f (ok a, db) = f a db
chain f (err e, db) = (err e, db)

abbrev pub ◌>>>=◌ : {Db A B : Type 0} → Write Db A → (A → Write Db B) → Write Db B
◌>>>=◌ m f db = chain f (m db)

abbrev pub ◌>>>◌ : {Db A B : Type 0} → Write Db A → Write Db B → Write Db B
m >>> k = m >>>= λ _. k

abbrev pub lift : {Db A : Type 0} → Result A → Write Db A
lift r db = (r, db)

-- `if err == repository.ErrNotFound { return ErrForbiddenAction }`
abbrev pub or_forbidden : {A : Type 0} → Result A → Result A
or_forbidden (ok a) = ok a
or_forbidden (err not_found) = err forbidden_action
or_forbidden (err e) = err e

-- `if err != nil && err != repository.ErrNotFound { return err }`, with the value for `ErrNotFound`.
abbrev pub or_else : {A : Type 0} → A → Result A → Result A
or_else a (ok b) = ok b
or_else a (err not_found) = ok a
or_else a (err e) = err e

module _ (store : Store) where
  -- `others` is what the other requests do between the reads and the transaction.
  unfoldable pub finish :
      {P A : Type 0}
      → (store.Db → store.Db)
      → (P → Write store.Db A)
      → Result (Prepared P A)
      → Write store.Db A
  finish others commit (err e) db = (err e, others db)
  finish others commit (ok (done a)) db = (ok a, others db)
  finish others commit (ok (todo p)) db = store.transaction (commit p) (others db)

  -- A request that fails has changed nothing.
  pub finish_failed :
      {P A : Type 0} (laws : IsStore store) (others : store.Db → store.Db)
      (commit : P → Write store.Db A) (prepared : Result (Prepared P A)) (db : store.Db) (e : Error)
      → (finish others commit prepared db).0 ≡ err e
      → (finish others commit prepared db).1 ≡ others db
  unfolding finish
  finish_failed laws others commit (err x) db e failed = refl
  finish_failed laws others commit (ok (done a)) db e failed = refl
  finish_failed laws others commit (ok (todo p)) db e failed =
      laws.transaction_failed (commit p) (others db) e failed
