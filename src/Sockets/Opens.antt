-- ===== src/Sockets/Opens.antt =====
-- What an attempt to open a connection leads to (`RoomWS` of backend/controller/room_ws_controller.go).
use blackjack.Prelude.{
  ℕ, String, str_eq, ◌||◌, ◌≡◌, refl, sym, ap, Bool-cases, ||-false, eq_iff, arith, ◌∙◌, Bool, true,
  false, not, ◌⊎◌, inl, inr, Option, none, some,
}
use blackjack.Prelude.Int.{ℤ}
use blackjack.Prelude.Result.{Error, Result, ok, err}
use blackjack.Model.Room.{Room}
use blackjack.Prelude.Space.{trim_space}
use blackjack.Model.Session.{GameSession}
use blackjack.Accounts.Jwt.{parse_and_validate}
use blackjack.Limits.Allow.{RateLimitResult}
use blackjack.Usecase.Access.{get_room}
use blackjack.Web.Hub.{Hub, add}
use blackjack.Sockets.Site.{
  Site, World, Connection, Opened, answered, not_upgraded, closed, refused, connected, Step,
  then_step, stop_if, or_stop,
}
use blackjack.Sockets.Open.{
  Handshake, WsAuthMessage, room_ws, open_steps, limit, limit_address, limit_user, read_auth,
  identify, see_room, assign_epoch, sit_down, enter, session_id, ended, unless_limited,
  refused_internal,
}

module _ (s : Site) where
  abbrev pub IsRefusal : Hub → Opened → World s → Type 0
  IsRefusal hub (connected c old game_session jti) w = ⊥
  IsRefusal hub (answered f retry) w = w.hub ≡ hub
  IsRefusal hub (not_upgraded e) w = w.hub ≡ hub
  IsRefusal hub closed w = w.hub ≡ hub
  IsRefusal hub (refused code message retry) w = w.hub ≡ hub

  -- The step refuses and leaves the hub alone, or goes on as `Q` says.
  Goes : {A : Type 0} → Hub → (A → World s → Type 0) → (Opened ⊎ A) × World s → Type 0
  Goes hub Q (inl o, w) = IsRefusal hub o w
  Goes hub Q (inr a, w) = Q a w

  goes :
      {A : Type 0} (hub : Hub) (Q : A → World s → Type 0) (a : A) (w : World s)
      → Q a w
      → Goes hub Q (inr a, w)
  unfolding Goes
  goes hub Q a w h = h

  stops :
      {A : Type 0} (hub : Hub) (Q : A → World s → Type 0) (o : Opened) (w : World s)
      → IsRefusal hub o w
      → Goes hub Q (inl o, w)
  unfolding Goes
  stops hub Q o w h = h

  bind-Goes :
      {A B : Type 0} (hub : Hub) (P : A → World s → Type 0) (Q : B → World s → Type 0)
      (f : A → Step s B) (x : (Opened ⊎ A) × World s)
      → Goes hub P x
      → ((a : A) (w : World s) → P a w → Goes hub Q (f a w))
      → Goes hub Q (then_step s f x)
  unfolding Goes
  bind-Goes hub P Q f (inl o, w) h k = h
  bind-Goes hub P Q f (inr a, w) h k = k a w h

  -- The hub and the database of the world `v`.
  abbrev Same : World s → World s → Type 0
  Same v w = (w.hub ≡ v.hub) × (w.db ≡ v.db)

  stop_if-Goes :
      (v w : World s) (b : Bool) (o : Opened)
      → IsRefusal v.hub o w
      → Same v w
      → Goes v.hub (λ x. Same v) (stop_if s b o w)
  unfolding Goes
  stop_if-Goes v w true o h k = h
  stop_if-Goes v w false o h k = k

  or_stop-Goes :
      {A : Type 0} (v w : World s) (r : Result A) (stop : Error → Opened)
      → ((e : Error) → IsRefusal v.hub (stop e) w)
      → Same v w
      → Goes v.hub (λ a x. (r ≡ ok a) × Same v x) (or_stop s r stop w)
  unfolding Goes
  or_stop-Goes v w (ok a) stop h k = (refl, k)
  or_stop-Goes v w (err e) stop h k = h e

  unless_limited-Goes :
      (v : World s) (failed : Error → Opened) (full : ℤ → Opened)
      (x : Result (RateLimitResult s.floats) × World s)
      → ((e : Error) → IsRefusal v.hub (failed e) x.1)
      → ((n : ℤ) → IsRefusal v.hub (full n) x.1)
      → Same v x.1
      → Goes v.hub (λ y. Same v) (unless_limited s failed full x)
  unless_limited-Goes v failed full (err e, w) h k same = stops _ (λ y. Same v) _ _ (h e)
  unless_limited-Goes v failed full (ok r, w) h k same =
      stop_if-Goes v w (not r.allowed) _ (k _) same

  limit-Same : (v w : World s) (key : String) (now : ℤ) → Same v w → Same v (limit s key now w).1
  unfolding limit
  limit-Same v w key now same = same

  limit_address-Goes :
      (v w : World s) (h : Handshake) → Same v w → Goes v.hub (λ x. Same v) (limit_address s h w)
  unfolding limit_address
  limit_address-Goes v w h same = elim (Bool-cases (not s.limiter)) [
    | inl e ↦ rw (e) (goes _ (λ x. Same v) _ _ same)
    | inr e ↦ rw (e) (
        unless_limited-Goes v _ _ _ (λ x. (limit-Same v w _ _ same).0)
          (λ n. (limit-Same v w _ _ same).0) (limit-Same v w _ _ same))
  ]

  limit_user-Goes :
      (v w : World s) (h : Handshake) (user_id : String)
      → Same v w
      → Goes v.hub (λ x. Same v) (limit_user s h user_id w)
  unfolding limit_user
  limit_user-Goes v w h user_id same = elim (Bool-cases (not s.limiter)) [
    | inl e ↦ rw (e) (goes _ (λ x. Same v) _ _ same)
    | inr e ↦ rw (e) (
        unless_limited-Goes v _ _ _ (λ x. (limit-Same v w _ _ same).0)
          (λ n. (limit-Same v w _ _ same).0) (limit-Same v w _ _ same))
  ]

  -- The first message that holds the token.
  abbrev pub IsAuth : Option (Result WsAuthMessage) → String → Type 0
  IsAuth first token =
      (msg : WsAuthMessage) × (first ≡ some (ok msg))
      × (msg.event ≡ "AUTH")
      × (msg.access_token ≡ token)

  read_auth-Goes :
      (v w : World s) (first : Option (Result WsAuthMessage))
      → Same v w
      → Goes v.hub (λ token x. IsAuth first token × Same v x) (read_auth s first w)
  unfolding read_auth
  read_auth-Goes v w none same = stops _ (λ token x. IsAuth none token × Same v x) _ _ same.0
  read_auth-Goes v w (some (err e)) same =
      stops _ (λ token x. IsAuth (some (err e)) token × Same v x) _ _ same.0
  read_auth-Goes v w (some (ok msg)) same =
      elim (Bool-cases (not (str_eq msg.event "AUTH") || str_eq (trim_space msg.access_token) "")) [
        | inl e ↦ rw (e) (stops _ (λ token x. IsAuth (some (ok msg)) token × Same v x) _ _ same.0)
        | inr e ↦ rw (e) (
            goes _ (λ token x. IsAuth (some (ok msg)) token × Same v x) _ _
              ((msg, refl, (eq_iff msg.event "AUTH").0 (not_false (||-false _ _ e).0), refl), same))
      ]
    where
      not_false : {b : Bool} → not b ≡ false → b ≡ true
      not_false h = ground arith

  identify-Goes :
      (v w : World s) (h : Handshake) (token : String)
      → Same v w
      → Goes v.hub
          (λ a x. (parse_and_validate s.jwt s.secret token h.now ≡ ok a) × Same v x)
          (identify s h token w)
  unfolding identify
  identify-Goes v w h token same = or_stop-Goes v w _ _ (λ e. same.0) same

  see_room-Goes :
      (v w : World s) (room_id user_id : String)
      → Same v w
      → Goes v.hub
          (λ r x. (get_room s.service room_id user_id w.db ≡ ok r) × Same v x)
          (see_room s room_id user_id w)
  unfolding see_room
  see_room-Goes v w room_id user_id same = or_stop-Goes v w _ _ (λ e. same.0) same

  internal-Goes :
      {A : Type 0} (hub : Hub) (x : Result A × World s)
      → x.1.hub ≡ hub
      → Goes hub (λ a w. w.hub ≡ hub) (refused_internal s x)
  unfolding Goes
  internal-Goes hub (ok a, w) h = h
  internal-Goes hub (err e, w) h = h

  assign_epoch-Goes :
      (hub : Hub) (w : World s) (room_id user_id : String)
      → w.hub ≡ hub
      → Goes hub (λ a x. x.hub ≡ hub) (assign_epoch s room_id user_id w)
  unfolding assign_epoch
  assign_epoch-Goes hub w room_id user_id h = internal-Goes hub _ h

  sit_down-Goes :
      (others : s.service.store.Db → s.service.store.Db) (hub : Hub) (w : World s)
      (room_id user_id : String)
      → w.hub ≡ hub
      → Goes hub (λ a x. x.hub ≡ hub) (sit_down s others room_id user_id w)
  unfolding sit_down
  sit_down-Goes others hub w room_id user_id h = internal-Goes hub _ h

  -- Who is let in: his first message is AUTH with a token that is valid for him, he may see the room, and
  -- the hub has his connection in place of his older one.
  pub record IsAdmitted (h : Handshake) (v w : World s) (c : Connection) (old : Option ℕ)
      (jti : String) : Type 0 where
    pub token : String
    pub first : IsAuth h.first token
    pub valid : parse_and_validate s.jwt s.secret token h.now ≡ ok (c.user_id, jti)
    pub room : Room × Option GameSession
    pub sees : get_room s.service h.room_id c.user_id v.db ≡ ok room
    pub at_room : c.room_id ≡ h.room_id
    pub upgraded : h.upgrade ≡ ok c.conn
    pub replaces : old ≡ (add c.room_id c.conn c.user_id v.hub).0
    pub entered : w.hub ≡ (add c.room_id c.conn c.user_id v.hub).1

  abbrev pub Outcome : Handshake → World s → Opened × World s → Type 0
  Outcome h v (connected c old game_session jti, w) = IsAdmitted h v w c old jti
  Outcome h v (answered f retry, w) = w.hub ≡ v.hub
  Outcome h v (not_upgraded e, w) = w.hub ≡ v.hub
  Outcome h v (closed, w) = w.hub ≡ v.hub
  Outcome h v (refused code message retry, w) = w.hub ≡ v.hub

  ended-Outcome :
      (h : Handshake) (v : World s) (x : (Opened ⊎ Opened) × World s)
      → Goes v.hub (λ o w. Outcome h v (o, w)) x
      → Outcome h v (ended s x)
  unfolding Goes
  ended-Outcome h v (inl (connected c old game_session jti), w) r = absurd r
  ended-Outcome h v (inl (answered f retry), w) r = r
  ended-Outcome h v (inl (not_upgraded e), w) r = r
  ended-Outcome h v (inl closed, w) r = r
  ended-Outcome h v (inl (refused code message retry), w) r = r
  ended-Outcome h v (inr o, w) r = r

  abbrev Final : Handshake → World s → Opened → World s → Type 0
  Final h v o w = Outcome h v (o, w)

  enter-Goes :
      (h : Handshake) (v w : World s) (token : String) (sess : Option String) (jti : String)
      (room : Room × Option GameSession) (c : Connection)
      → IsAuth h.first token
      → parse_and_validate s.jwt s.secret token h.now ≡ ok (c.user_id, jti)
      → get_room s.service h.room_id c.user_id v.db ≡ ok room
      → c.room_id ≡ h.room_id
      → h.upgrade ≡ ok c.conn
      → w.hub ≡ v.hub
      → Goes v.hub (Final h v) (enter s c sess jti w)
  unfolding Goes enter
  enter-Goes h v w token sess jti room c first valid sees at_room upgraded q = record {
    token = token;
    first = first;
    valid = valid;
    room = room;
    sees = sees;
    at_room = at_room;
    upgraded = upgraded;
    replaces = ap (λ x. (add c.room_id c.conn c.user_id x).0) q;
    entered = ap (λ x. (add c.room_id c.conn c.user_id x).1) q;
  }

  steps-Goes :
      (others : s.service.store.Db → s.service.store.Db) (h : Handshake) (v : World s)
      → Goes v.hub (Final h v) (open_steps s others h v)
  unfolding open_steps
  steps-Goes others h v =
      bind-Goes v.hub (λ x. Same v) (Final h v) _ _
        (stop_if-Goes v v (str_eq h.room_id "") _ refl (refl, refl))
        λ x w1 q1.
          bind-Goes v.hub (λ x. Same v) (Final h v) _ _ (limit_address-Goes v w1 h q1)
            λ x w2 q2.
              bind-Goes v.hub (λ a x. (h.upgrade ≡ ok a) × Same v x) (Final h v) _ _
                (or_stop-Goes v w2 h.upgrade not_upgraded (λ e. q2.0) q2)
                λ conn w3 (up, q3).
                  bind-Goes v.hub (λ token x. IsAuth h.first token × Same v x) (Final h v) _ _
                    (read_auth-Goes v w3 h.first q3)
                    λ token w4 (first, q4).
                      bind-Goes v.hub
                        (λ a x. (parse_and_validate s.jwt s.secret token h.now ≡ ok a) × Same v x)
                        (Final h v) _ _ (identify-Goes v w4 h token q4)
                        λ (user_id, jti) w5 (valid, q5).
                          bind-Goes v.hub
                            (λ r x. (get_room s.service h.room_id user_id w5.db ≡ ok r) × Same v x)
                            (Final h v) _ _ (see_room-Goes v w5 h.room_id user_id q5)
                            λ room w6 (sees, q6).
                              bind-Goes v.hub (λ x. Same v) (Final h v) _ _
                                (limit_user-Goes v w6 h user_id q6)
                                λ x w7 q7.
                                  bind-Goes v.hub (λ a x. x.hub ≡ v.hub) (Final h v) _ _
                                    (assign_epoch-Goes v.hub w7 h.room_id user_id q7.0)
                                    λ epoch w8 q8.
                                      bind-Goes v.hub (λ a x. x.hub ≡ v.hub) (Final h v) _ _
                                        (sit_down-Goes others v.hub w8 h.room_id user_id q8)
                                        λ x w9 q9.
                                          enter-Goes h v w9 token (session_id s room.1) jti room
                                            (record {
                                              room_id = h.room_id;
                                              user_id = user_id;
                                              conn = conn;
                                              epoch = epoch;
                                            })
                                            first valid
                                            (ap (λ d. get_room s.service h.room_id user_id d)
                                                (sym q5.1)
                                              ∙ sees)
                                            refl up q9

  -- An attempt to connect that is let in has passed the checks that `IsAdmitted` names, and every other
  -- attempt leaves the hub as it was.
  pub room_ws-Outcome :
      (others : s.service.store.Db → s.service.store.Db) (h : Handshake) (v : World s)
      → Outcome h v (room_ws s others h v)
  unfolding room_ws
  room_ws-Outcome others h v = ended-Outcome h v (open_steps s others h v) (steps-Goes others h v)
