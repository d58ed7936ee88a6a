-- ===== src/Web/Latest.antt =====
-- The invariant of `roomHub` of backend/controller/room_ws_controller.go.
use text.Mathlib.TextLemmas.{
  nil-append, cons-append, append_cancel_left, head-eq_of_cons-eq, tail-eq_of_cons-eq,
}
use Prim.Native.Char.{Char, code}
use Prim.Native.String.{[] as nil, ◌∷◌ as ◌cons◌, ◌++◌, char_at}
use blackjack.Prelude.{
  ℕ, String, str_eq, eq_iff, eq_refl, subst, ◌⊎◌, ◌≡◌, ◌≢◌, refl, sym, ap, ◌∙◌, true, false,
  Bool-cases, true≢false, ||-false, inl, inr, [], ◌∷◌, Option, none, some, ◌==◌, if◌then◌else◌, In,
  arith,
}
use blackjack.Limits.Keys.{holds, colon}
use blackjack.Web.Hub.{
  Connections, Hub, empty_hub, hub_key, delete_conn, delete_old, add, forget_conn, is_empty, remove,
  snapshot, is_latest,
}

abbrev colon_char : Char
colon_char = char_at ":" 0

-- A colon does not stand where another character of a text without colons does.
not_colon : (c : Char) (r u t : String) → (code c == colon) ≡ false → ":" ++ u ≡ (c cons r) ++ t → ⊥
not_colon c r u t h e =
    let e' = sym (cons-append colon_char nil u) ∙ e ∙ cons-append c r t in
    true≢false (ap (λ x. code x == colon) (head-eq_of_cons-eq e') ∙ h)

-- Two texts without a colon before a colon are equal if the wholes are.
before_colon :
    (r r' u u' : String)
    → holds colon r ≡ false
    → holds colon r' ≡ false
    → r ++ ":" ++ u ≡ r' ++ ":" ++ u'
    → r ≡ r'
unfolding holds
before_colon nil nil u u' h h' e = refl
before_colon nil (c cons r') u u' h h' e = absurd (
    not_colon c r' u (":" ++ u') (||-false (code c == colon) (holds colon r') h').0
      (sym (nil-append (":" ++ u)) ∙ e))
before_colon (c cons r) nil u u' h h' e = absurd (
    not_colon c r u' (":" ++ u) (||-false (code c == colon) (holds colon r) h).0
      (sym (nil-append (":" ++ u')) ∙ sym e))
before_colon (c cons r) (d cons r') u u' h h' e =
    let e' = sym (cons-append c r (":" ++ u)) ∙ e ∙ cons-append d r' (":" ++ u') in
    let (p, q) = ||-false (code c == colon) (holds colon r) h in
    let (p', q') = ||-false (code d == colon) (holds colon r') h' in
    cc (before_colon r r' u u' q q' (tail-eq_of_cons-eq e'), head-eq_of_cons-eq e')

delete_conn-In :
    (x c : ℕ) (user : String) (l : Connections)
    → In (c, user) (delete_conn x l)
    → In (c, user) l × ((c == x) ≡ false)
unfolding delete_conn
delete_conn-In x c user [] m = absurd m
delete_conn-In x c user ((d, w) ∷ l) m = elim (Bool-cases (d == x)) [
  | inl e ↦ let (n, k) = delete_conn-In x c user l (rw (e) at m) in (inr n, k)
  | inr e ↦ at_place e (delete_conn-In x c user l) (rw (e) at m)
]
  where
    at_place :
        (d == x) ≡ false
        → (In (c, user) (delete_conn x l) → In (c, user) l × ((c == x) ≡ false))
        → In (c, user) ((d, w) ∷ delete_conn x l)
        → In (c, user) ((d, w) ∷ l) × ((c == x) ≡ false)
    at_place e rest (inl same) = (inl same, ap (λ (p : ℕ × String). p.0 == x) same ∙ e)
    at_place e rest (inr n) = let (k, f) = rest n in (inr k, f)

delete_old-In :
    (old : Option ℕ) (c : ℕ) (user : String) (l : Connections)
    → In (c, user) (delete_old old l)
    → In (c, user) l × (old ≢ some c)
unfolding delete_old
delete_old-In none c user l m = (m, λ e. cc e)
delete_old-In (some o) c user l m =
    let (n, k) = delete_conn-In o c user l m in (n, λ e. differs o c k e)
  where
    differs : (o c : ℕ) → (c == o) ≡ false → ◌≡◌ {A = Option ℕ} (some o) (some c) → ⊥
    differs o c k e = ground arith

-- In a room without a colon in its id each connection is the latest one of its player.
abbrev pub IsLatestOnly : Hub → Type 0
IsLatestOnly h =
    (room : String) (c : ℕ) (user : String)
    → holds colon room ≡ false
    → In (c, user) (h.rooms room)
    → h.latest (hub_key room user) ≡ some c

hub_key-user : (r u u' : String) → hub_key r u ≡ hub_key r u' → u ≡ u'
hub_key-user r u u' e = append_cancel_left ":" u u' (append_cancel_left r (":" ++ u) (":" ++ u') e)

-- A connection that is in no other room.
abbrev pub IsOnlyIn : Hub → String → ℕ → Type 0
IsOnlyIn h room conn = (r user : String) → In (conn, user) (h.rooms r) → r ≡ room

add-IsLatestOnly :
    (room user : String) (conn : ℕ) (h : Hub)
    → holds colon room ≡ false
    → IsLatestOnly h
    → IsLatestOnly (add room conn user h).1
unfolding add
add-IsLatestOnly room user conn h plain inv r c w named m = elim (Bool-cases (str_eq r room)) [
  | inl e ↦ same ((eq_iff r room).0 e) (rw (e) at m)
  | inr e ↦ other e (rw (e) at m) (Bool-cases (str_eq (hub_key r w) (hub_key room user)))
]
  where
    later :
        r ≡ room
        → In (c, w) (h.rooms room)
        → h.latest (hub_key room user) ≢ some c
        → (str_eq (hub_key r w) (hub_key room user) ≡ true)
          ⊎ (str_eq (hub_key r w) (hub_key room user) ≡ false)
        → (if str_eq (hub_key r w) (hub_key room user) then some conn else h.latest (hub_key r w))
          ≡ some c
    later p n differs (inl f) =
        let k = (eq_iff (hub_key r w) (hub_key room user)).0 f in
        absurd (
          differs
            (ap h.latest (sym k) ∙ inv r c w named (subst (λ x. In (c, w) (h.rooms x)) (sym p) n)))
    later p n differs (inr f) =
        rw (f) (inv r c w named (subst (λ x. In (c, w) (h.rooms x)) (sym p) n))

    same :
        r ≡ room
        → In
            (c, w)
            ((conn, user)
              ∷ delete_conn conn (delete_old (h.latest (hub_key room user)) (h.rooms room)))
        → (if str_eq (hub_key r w) (hub_key room user) then some conn else h.latest (hub_key r w))
          ≡ some c
    same p (inl q) =
        rw (p, ap (λ (x : ℕ × String). x.1) q, eq_refl (hub_key room user))
          (ap some (sym (ap (λ (x : ℕ × String). x.0) q)))
    same p (inr n) =
        let (n1, k) = delete_conn-In conn c w _ n in
        let (n2, differs) = delete_old-In (h.latest (hub_key room user)) c w (h.rooms room) n1 in
        later p n2 differs (Bool-cases (str_eq (hub_key r w) (hub_key room user)))

    other :
        str_eq r room ≡ false
        → In (c, w) (h.rooms r)
        → (str_eq (hub_key r w) (hub_key room user) ≡ true)
          ⊎ (str_eq (hub_key r w) (hub_key room user) ≡ false)
        → (if str_eq (hub_key r w) (hub_key room user) then some conn else h.latest (hub_key r w))
          ≡ some c
    other e n (inl f) =
        let k = (eq_iff (hub_key r w) (hub_key room user)).0 f in
        let p = before_colon r room w user named plain k in
        absurd (true≢false (sym (eq_refl room) ∙ ap (λ t. str_eq t room) (sym p) ∙ e))
    other e n (inr f) = rw (f) (inv r c w named n)

forget_conn-kept : (conn c : ℕ) → (c == conn) ≡ false → forget_conn conn (some c) ≡ some c
unfolding forget_conn
forget_conn-kept conn c h = rw (h) refl

remove-IsLatestOnly :
    (room : String) (conn : ℕ) (h : Hub)
    → IsOnlyIn h room conn
    → IsLatestOnly h
    → IsLatestOnly (remove room conn h)
unfolding remove
remove-IsLatestOnly room conn h only inv r c w named m =
    elim (Bool-cases (is_empty (h.rooms room))) [
      | inl e ↦ rw (e) (inv r c w named (rw (e) at m))
      | inr e ↦ rw (e) (elim (Bool-cases (str_eq r room)) [
        | inl f ↦
            let (n, k) = delete_conn-In conn c w (h.rooms room) (rw (e, f) at m) in
            rw (inv r c w named (subst (λ x. In (c, w) (h.rooms x)) (sym ((eq_iff r room).0 f)) n))
              (forget_conn-kept conn c k)
        | inr f ↦
            let n = rw (e, f) at m in
            rw (inv r c w named n)
              (forget_conn-kept conn c (elsewhere f n (Bool-cases (c == conn))))
      ])
    ]
  where
    elsewhere :
        str_eq r room ≡ false
        → In (c, w) (h.rooms r)
        → ((c == conn) ≡ true) ⊎ ((c == conn) ≡ false)
        → (c == conn) ≡ false
    elsewhere f n (inl k) =
        let same : c ≡ conn = (ground arith) in
        let p = only r w (subst (λ x. In (x, w) (h.rooms r)) same n) in
        absurd (true≢false (sym (eq_refl room) ∙ ap (λ t. str_eq t room) (sym p) ∙ f))
    elsewhere f n (inr k) = k

-- A table of connections that the server reaches: room ids have no colon, and a connection that leaves is
-- in no other room.
pub data Reached : Hub → Type 0 where
  empty : Reached empty_hub
  added :
      (room user : String) (conn : ℕ) (h : Hub)
      → holds colon room ≡ false
      → Reached h
      → Reached (add room conn user h).1
  removed :
      (room : String) (conn : ℕ) (h : Hub)
      → IsOnlyIn h room conn
      → Reached h
      → Reached (remove room conn h)

Reached-IsLatestOnly : (h : Hub) → Reached h → IsLatestOnly h
Reached-IsLatestOnly h empty = λ r c w named m. absurd m
Reached-IsLatestOnly h (added room user conn g named before) =
    add-IsLatestOnly room user conn g named (Reached-IsLatestOnly g before)
Reached-IsLatestOnly h (removed room conn g only before) =
    remove-IsLatestOnly room conn g only (Reached-IsLatestOnly g before)

-- In a table that additions and removals reach, where room ids have no colon and a connection is removed
-- from the only room that holds it, a player has at most one connection in a room, and it is the one that
-- `isLatest` accepts.
pub Reached-one_connection :
    (h : Hub) (room user : String) (c d : ℕ)
    → Reached h
    → holds colon room ≡ false
    → In (c, user) (snapshot room h)
    → In (d, user) (snapshot room h)
    → (c ≡ d) × (is_latest room user c h ≡ true)
unfolding snapshot is_latest
Reached-one_connection h room user c d reached named m n =
    let p = Reached-IsLatestOnly h reached room c user named m in
    let q = Reached-IsLatestOnly h reached room d user named n in
    (some_injective (sym p ∙ q), rw (p) (same_conn c))
  where
    same_conn : (c : ℕ) → (c == c) ≡ true
    same_conn c = ground arith

    some_injective : ◌≡◌ {A = Option ℕ} (some c) (some d) → c ≡ d
    some_injective e = cc
