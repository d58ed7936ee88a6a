-- ===== src/Sockets/Current.antt =====
-- What the epochs of backend/controller/room_ws_controller.go promise: a new connection gets a higher one,
-- and the newest registration is the current one.
use Prim.Native.Char.{code}
use Prim.Native.String.{[], ◌∷◌, ◌++◌}
use text.Mathlib.TextLemmas.{nil-append, cons-append}
use blackjack.Prelude.{
  ℕ, ◌<◌, String, str_eq, eq_iff, ◌≡◌, ◌≢◌, refl, sym, ap, ◌∙◌, subst, true, false, Bool-cases,
  true≢false, inl, inr, some, arith,
}
use blackjack.Prelude.Int.{ℤ, pos, negsuc, leb_ℤ, eqb_ℤ, ◌<ℤ◌, ◌≤ℤ◌}
use blackjack.Prelude.Result.{Result, ok, err, ok_unique}
use blackjack.Store.{Write}
use blackjack.Usecase.Service.{chain, ◌>>>◌, lift}
use blackjack.Sockets.Epoch.{
  EpochStore, IsRedis, ws_epoch_counter_key, ws_epoch_latest_key, user_prefix,
  register_connection_epoch, refresh_connection_epoch, is_current_connection_epoch,
}

-- The last character of a text, after the character `n`.
ending : ℕ → String → ℕ
ending n [] = n
ending n (c ∷ s) = ending (code c) s

ending-append : (n : ℕ) (s t : String) → ending n (s ++ t) ≡ ending (ending n s) t
unfolding ending
ending-append n [] t = ap (ending n) (nil-append t)
ending-append n (c ∷ s) t = ap (ending n) (cons-append c s t) ∙ ending-append (code c) s t

counter≢latest :
    (room user room' user' : String)
    → ws_epoch_counter_key room user ≢ ws_epoch_latest_key room' user'
unfolding ws_epoch_counter_key ws_epoch_latest_key ending
counter≢latest room user room' user' e =
    let p = ending-append 0 (user_prefix room user) ":epoch_counter" in
    let q = ending-append 0 (user_prefix room' user') ":latest_epoch" in
    differ (sym p ∙ ap (ending 0) e ∙ q)
  where
    differ : ◌≡◌ {A = ℕ} 114 104 → ⊥
    differ h = omega arith

stored_last :
    {Db : Type 0} (a n : ℤ) (y : Result (Unit {0}) × Db)
    → (chain (λ _. lift (ok a)) y).0 ≡ ok n
    → (a ≡ n) × (y.0 ≡ ok tt) × ((chain (λ _. lift (ok a)) y).1 ≡ y.1)
stored_last a n (ok x, db) h = (ok_unique refl h, refl, refl)
stored_last a n (err e, db) h = cc

numbered :
    {Db : Type 0} (set : ℤ → Write Db (Unit {0})) (n : ℤ) (x : Result ℤ × Db)
    → (chain (λ a. set a >>> lift (ok a)) x).0 ≡ ok n
    → (x.0 ≡ ok n)
      × ((set n x.1).0 ≡ ok tt)
      × ((chain (λ a. set a >>> lift (ok a)) x).1 ≡ (set n x.1).1)
numbered set n (ok a, db) h =
    let (p, q, r) = stored_last a n (set a db) h in
    (ap ok p, subst (λ k. (set k db).0 ≡ ok tt) p q, r ∙ ap (λ k. (set k db).1) p)
numbered set n (err e, db) h = cc

module _ (s : EpochStore) (laws : IsRedis s.redis) (on : s.configured ≡ true) where
  abbrev Value : String → ℤ → s.redis.Db → Type 0
  Value key v db = s.redis.get_int64 key db ≡ ok (some v)

  -- What a registration that answers has done.
  registered :
      (room user : String) (n : ℤ) (db : s.redis.Db)
      → (register_connection_epoch s room user db).0 ≡ ok n
      → ((s.redis.incr (ws_epoch_counter_key room user) db).0 ≡ ok n)
        × ((s.redis.set
              (ws_epoch_latest_key room user)
              n
              s.ttl
              (s.redis.incr (ws_epoch_counter_key room user) db).1).0
            ≡ ok tt)
        × ((register_connection_epoch s room user db).1
            ≡ (s.redis.set
                (ws_epoch_latest_key room user)
                n
                s.ttl
                (s.redis.incr (ws_epoch_counter_key room user) db).1).1)
  unfolding register_connection_epoch
  registered room user n db h = rw (on) (
      numbered (λ k. s.redis.set (ws_epoch_latest_key room user) k s.ttl) n
        (s.redis.incr (ws_epoch_counter_key room user) db) (rw (on) at h))

  -- A registration that answers makes its epoch the current one and no other.
  pub register-current :
      (room user : String) (n e : ℤ) (db : s.redis.Db)
      → 0 < s.ttl
      → pos 0 <ℤ e
      → (register_connection_epoch s room user db).0 ≡ ok n
      → is_current_connection_epoch s room user e (register_connection_epoch s room user db).1
        ≡ ok (eqb_ℤ n e)
  unfolding is_current_connection_epoch
  register-current room user n e db lives positive h =
      let (p, q, r) = registered room user n db h in
      let stored =
        laws.set-get (ws_epoch_latest_key room user) n s.ttl
          (s.redis.incr (ws_epoch_counter_key room user) db).1 lives q in
      rw (r, stored, on, not_negative e positive) refl
    where
      not_negative : (e : ℤ) → pos 0 <ℤ e → leb_ℤ e (pos 0) ≡ false
      not_negative (pos k) h = ground arith
      not_negative (negsuc k) h = ground arith

  -- The commands that the servers send for connections, in any order.
  pub data Later (db : s.redis.Db) : s.redis.Db → Type 0 where
    here : Later db db
    register :
        {d : s.redis.Db} (room user : String)
        → Later db d
        → Later db (register_connection_epoch s room user d).1
    refresh :
        {d : s.redis.Db} (room user : String) (epoch : ℤ)
        → Later db d
        → Later db (refresh_connection_epoch s room user epoch d).1

  abbrev Reaches : ℤ → String → s.redis.Db → Type 0
  Reaches n key db = (v : ℤ) × (s.redis.get_int64 key db ≡ ok (some v)) × (n ≤ℤ v)

  incr-Reaches :
      (n : ℤ) (key other : String) (db : s.redis.Db)
      → Reaches n key db
      → Reaches n key (s.redis.incr other db).1
  incr-Reaches n key other db (v, p, q) = elim (Bool-cases (str_eq key other)) [
    | inl e ↦
        subst (λ k. Reaches n key (s.redis.incr k db).1) ((eq_iff key other).0 e)
          (answered (s.redis.incr key db).0 refl)
    | inr e ↦ (
      v,
      laws.incr-other other key db (λ k. true≢false (sym ((eq_iff key other).1 k) ∙ e)) ∙ p,
      q,
    )
  ]
    where
      answered :
          (r : Result ℤ) → (s.redis.incr key db).0 ≡ r → Reaches n key (s.redis.incr key db).1
      answered (ok m) h =
          (m, laws.incr-get key m db h, (omega (arith, laws.incr_grows key v m db p h)))
      answered (err e) h = let (w, k, l) = laws.incr_lost key v e db p h in (w, k, (omega arith))

  set-Reaches :
      (n v : ℤ) (room user room' user' : String) (db : s.redis.Db)
      → Reaches n (ws_epoch_counter_key room user) db
      → Reaches n
          (ws_epoch_counter_key room user)
          (s.redis.set (ws_epoch_latest_key room' user') v s.ttl db).1
  set-Reaches n v room user room' user' db (w, p, q) =
      (w, laws.set-other _ _ v s.ttl db (counter≢latest room user room' user') ∙ p, q)

  register-Reaches :
      (n : ℤ) (room user room' user' : String) (db : s.redis.Db)
      → Reaches n (ws_epoch_counter_key room user) db
      → Reaches n (ws_epoch_counter_key room user) (register_connection_epoch s room' user' db).1
  unfolding register_connection_epoch
  register-Reaches n room user room' user' db r = rw (on) (
      both (s.redis.incr (ws_epoch_counter_key room' user') db)
        (incr-Reaches n _ (ws_epoch_counter_key room' user') db r))
    where
      last :
          (a : ℤ) (y : Result (Unit {0}) × s.redis.Db)
          → Reaches n (ws_epoch_counter_key room user) y.1
          → Reaches n (ws_epoch_counter_key room user) (chain (λ _. lift (ok a)) y).1
      last a (ok x, d) h = h
      last a (err e, d) h = h

      both :
          (x : Result ℤ × s.redis.Db)
          → Reaches n (ws_epoch_counter_key room user) x.1
          → Reaches n
              (ws_epoch_counter_key room user)
              (chain
                (λ a. s.redis.set (ws_epoch_latest_key room' user') a s.ttl >>> lift (ok a))
                x).1
      both (ok a, d) h = last a _ (set-Reaches n a room user room' user' d h)
      both (err e, d) h = h

  refresh-Reaches :
      (n e : ℤ) (room user room' user' : String) (db : s.redis.Db)
      → Reaches n (ws_epoch_counter_key room user) db
      → Reaches n (ws_epoch_counter_key room user) (refresh_connection_epoch s room' user' e db).1
  unfolding refresh_connection_epoch
  refresh-Reaches n e room user room' user' db r = elim (Bool-cases (leb_ℤ e (pos 0))) [
    | inl h ↦ rw (on, h) r
    | inr h ↦ rw (on, h) (set-Reaches n e room user room' user' db r)
  ]

  Later-Reaches :
      {db d : s.redis.Db} (n : ℤ) (room user : String)
      → Reaches n (ws_epoch_counter_key room user) db
      → Later db d
      → Reaches n (ws_epoch_counter_key room user) d
  Later-Reaches n room user r here = r
  Later-Reaches n room user r (register room' user' l) =
      register-Reaches n room user room' user' _ (Later-Reaches n room user r l)
  Later-Reaches n room user r (refresh room' user' e l) =
      refresh-Reaches n e room user room' user' _ (Later-Reaches n room user r l)

  -- A connection that registers later for the same room and player gets a higher epoch, whatever was
  -- registered and refreshed meanwhile.
  pub register_grows :
      (room user : String) (n m : ℤ) (db d : s.redis.Db)
      → (register_connection_epoch s room user db).0 ≡ ok n
      → Later (register_connection_epoch s room user db).1 d
      → (register_connection_epoch s room user d).0 ≡ ok m
      → n <ℤ m
  register_grows room user n m db d h later k =
      let (p, q, r) = registered room user n db h in
      let counter = ws_epoch_counter_key room user in
      let start : Reaches n counter (s.redis.incr counter db).1 =
        (n, laws.incr-get counter n db p, (omega arith)) in
      let (v, a, b) =
        Later-Reaches n room user
          (subst (λ x. Reaches n counter x) (sym r) (set-Reaches n n room user room user _ start))
          later in
      let (p', q', r') = registered room user m d k in
      (omega (arith, laws.incr_grows counter v m d a p'))
