-- ===== src/Usecase/Swap.antt =====
-- The compare-and-swap on the session's version inside the writes of backend/usecase/game_usecase.go:
-- what a chain of writes that starts with it and succeeds has done to the session's row.
use blackjack.Prelude.{
  ◌≡◌, refl, ap, ◌∙◌, List, [], ◌∷◌, some, String, Bool, true, false, if◌then◌else◌,
}
use blackjack.Prelude.Int.{ℤ}
use blackjack.Prelude.Result.{Result, ok, err, version_conflict}
use blackjack.Model.Session.{GameSession}
use blackjack.Store.{Store, Write, IsStore, KeepsVersions}
use blackjack.Usecase.Service.{Service, chain, ◌>>>=◌, ◌>>>◌, lift}
use blackjack.Usecase.Turn.{swap_session}

chain-ok :
    {Db A B : Type 0} (f : A → Write Db B) (p : Result A × Db) (b : B)
    → (chain f p).0 ≡ ok b
    → (a : A) × (p.0 ≡ ok a) × (chain f p ≡ f a p.1)
chain-ok f (ok a, db) b h = (a, refl, refl)
chain-ok f (err e, db) b h = cc

-- A chain of writes that succeeds has a first write that succeeds, and goes on from there.
pub >>>=-ok :
    {Db A B : Type 0} (m : Write Db A) (f : A → Write Db B) (db : Db) (b : B)
    → ((m >>>= f) db).0 ≡ ok b
    → (a : A) × ((m db).0 ≡ ok a) × ((m >>>= f) db ≡ f a (m db).1)
>>>=-ok m f db b h = chain-ok f (m db) b h

-- Writes that all succeed, one after the other, from one database to another.
abbrev pub Ran : (s : Store) → List (Write s.Db (Unit {0})) → s.Db → s.Db → Type 0
Ran s [] begun ended = ended ≡ begun
Ran s (w ∷ writes) begun ended = ((w begun).0 ≡ ok tt) × Ran s writes (w begun).1 ended

-- The first write of a chain that succeeds is one of its writes.
pub >>>-ok :
    {B : Type 0} (s : Store) (w : Write s.Db (Unit {0})) (k : Write s.Db B) (db : s.Db) (b : B)
    → ((w >>> k) db).0 ≡ ok b
    → ((w db).0 ≡ ok tt) × ((w >>> k) db ≡ k (w db).1)
>>>-ok s w k db b h = let (_, done, e) = >>>=-ok w (λ _. k) db b h in (done, e)

module _ (s : Store) (laws : IsStore s) where
  chain-keeps :
      {A B : Type 0} (f : A → Write s.Db B) (p : Result A × s.Db) (id : String)
      → ((a : A) → KeepsVersions s laws (f a))
      → laws.version_in id (chain f p).1 ≡ laws.version_in id p.1
  chain-keeps f (ok a, db) id kf = kf a id db
  chain-keeps f (err e, db) id kf = refl

  pub >>>=-keeps :
      {A B : Type 0} (m : Write s.Db A) (f : A → Write s.Db B)
      → KeepsVersions s laws m
      → ((a : A) → KeepsVersions s laws (f a))
      → KeepsVersions s laws (m >>>= f)
  >>>=-keeps m f km kf id db = chain-keeps f (m db) id kf ∙ km id db

  pub lift-keeps : {A : Type 0} (r : Result A) → KeepsVersions s laws (lift r)
  lift-keeps r id db = refl

  -- The row of a session was replaced under its old version by the row of another one.
  pub record Swapped (session : GameSession) (version : ℤ) (before after : s.Db) : Type 0 where
    pub updated : (s.update_session_if_version session version before).0 ≡ ok true
    pub held : laws.version_in session.id before ≡ some version
    pub stored : laws.version_in session.id after ≡ some session.version

-- A swap that succeeds was made.
swap_session-ok :
    (u : Service) (sess : GameSession) (version : ℤ) (db : u.store.Db) (b : Unit {0})
    → (swap_session u sess version db).0 ≡ ok b
    → ((u.store.update_session_if_version sess version db).0 ≡ ok true)
      × (swap_session u sess version db
          ≡ (ok tt, (u.store.update_session_if_version sess version db).1))
unfolding swap_session
swap_session-ok u sess version db b h = go (
    >>>=-ok (u.store.update_session_if_version sess version)
      (λ swapped. lift (if swapped then ok tt else err version_conflict)) db b h)
  where
    go :
        (done : Bool) × ((u.store.update_session_if_version sess version db).0 ≡ ok done)
          × (swap_session u sess version db ≡ (
            if done then ok tt else err version_conflict,
            (u.store.update_session_if_version sess version db).1,
          ))
        → ((u.store.update_session_if_version sess version db).0 ≡ ok true)
          × (swap_session u sess version db
              ≡ (ok tt, (u.store.update_session_if_version sess version db).1))
    go (true, e, f) = (e, f)
    go (false, e, f) = cc (f, h)

-- A chain that starts with the swap: what follows ran on the database that the swap left.
pub swap_session-then :
    {B : Type 0} (u : Service) (sess : GameSession) (version : ℤ) (rest : Write u.store.Db B)
    (db : u.store.Db) (b : B)
    → ((swap_session u sess version >>> rest) db).0 ≡ ok b
    → ((u.store.update_session_if_version sess version db).0 ≡ ok true)
      × ((swap_session u sess version >>> rest) db
          ≡ rest (u.store.update_session_if_version sess version db).1)
swap_session-then u sess version rest db b h =
    let (x, swapped, e) = >>>=-ok (swap_session u sess version) (λ _. rest) db b h in
    let (updated, f) = swap_session-ok u sess version db x swapped in
    (updated, e ∙ ap (λ (p : Result (Unit {0}) × u.store.Db). rest p.1) f)

-- The chain has swapped the row if what follows keeps the versions.
pub swap_session-Swapped :
    {B : Type 0} (u : Service) (laws : IsStore u.store) (sess : GameSession) (version : ℤ)
    (rest : Write u.store.Db B) (db : u.store.Db) (b : B)
    → KeepsVersions u.store laws rest
    → ((swap_session u sess version >>> rest) db).0 ≡ ok b
    → Swapped u.store laws sess version db ((swap_session u sess version >>> rest) db).1
swap_session-Swapped u laws sess version rest db b keeps h =
    let (updated, e) = swap_session-then u sess version rest db b h in
    let (held, stored) = laws.swapped sess version db updated in
    record {
      updated = updated;
      held = held;
      stored =
          rw (e) (keeps sess.id (u.store.update_session_if_version sess version db).1 ∙ stored);
    }
