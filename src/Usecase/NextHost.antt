-- ===== src/Usecase/NextHost.antt =====
-- The choice of `selectNextHost` in backend/usecase/game_usecase.go.
use blackjack.Prelude.{
  String, str_eq, ◌≡◌, refl, sym, ◌∙◌, Bool, true, false, Bool-cases, true≢false, inl, inr, List,
  [], ◌∷◌, Option, none, some, if◌then◌else◌, All, In, All-map, arith,
}
use blackjack.Prelude.Int.{ℤ, leb_ℤ}
use blackjack.Model.Status.{is_seated}
use blackjack.Model.Room.{RoomPlayer}
use blackjack.Usecase.Host.{
  host_candidates, sits_before, insert_candidate, sort_candidates, first_candidate,
  select_next_host,
}

leb_ℤ_refl : (a : ℤ) → leb_ℤ a a ≡ true
leb_ℤ_refl a = ground arith

leb_ℤ_trans : (a b c : ℤ) → leb_ℤ a b ≡ true → leb_ℤ b c ≡ true → leb_ℤ a c ≡ true
leb_ℤ_trans a b c h k = ground arith

sits_before-seat : (p q : RoomPlayer) → sits_before p q ≡ true → leb_ℤ p.seat_no q.seat_no ≡ true
unfolding sits_before
sits_before-seat p q h = ground arith

sits_before-not : (p q : RoomPlayer) → sits_before p q ≡ false → leb_ℤ q.seat_no p.seat_no ≡ true
unfolding sits_before
sits_before-not p q h = ground arith

-- A player who is a first one of a list by seat, or none in an empty list.
abbrev IsFirst : List RoomPlayer → Option RoomPlayer → Type 0
IsFirst cs none = All (λ p. ⊥) cs
IsFirst cs (some h) = In h cs × All (λ p. leb_ℤ h.seat_no p.seat_no ≡ true) cs

abbrev winner : RoomPlayer → Option RoomPlayer → RoomPlayer
winner p none = p
winner p (some q) = if sits_before q p then q else p

first-insert :
    (p : RoomPlayer) (qs : List RoomPlayer)
    → first_candidate (insert_candidate p qs) ≡ some (winner p (first_candidate qs))
unfolding first_candidate insert_candidate
first-insert p [] = refl
first-insert p (q ∷ qs) = elim (Bool-cases (sits_before q p)) [
  | inl e ↦ rw (e) refl
  | inr e ↦ rw (e) refl
]

earlier-IsFirst :
    (p q : RoomPlayer) (cs : List RoomPlayer) (b : Bool)
    → sits_before q p ≡ b
    → IsFirst cs (some q)
    → IsFirst (p ∷ cs) (some (if b then q else p))
earlier-IsFirst p q cs true e (m, h) = (inr m, (sits_before-seat q p e, h))
earlier-IsFirst p q cs false e (m, h) = (
  inl refl,
  (
    leb_ℤ_refl p.seat_no,
    All-map {P = λ c. leb_ℤ q.seat_no c.seat_no ≡ true} {Q = λ c. leb_ℤ p.seat_no c.seat_no ≡ true}
        (λ c. leb_ℤ_trans p.seat_no q.seat_no c.seat_no (sits_before-not q p e)) cs h,
  ),
)

winner-IsFirst :
    (p : RoomPlayer) (cs : List RoomPlayer) (o : Option RoomPlayer)
    → IsFirst cs o
    → IsFirst (p ∷ cs) (some (winner p o))
winner-IsFirst p cs none h = (inl refl, (leb_ℤ_refl p.seat_no, All-map (λ q. absurd) cs h))
winner-IsFirst p cs (some q) h = earlier-IsFirst p q cs (sits_before q p) refl h

sorted-IsFirst : (cs : List RoomPlayer) → IsFirst cs (first_candidate (sort_candidates cs))
unfolding sort_candidates
sorted-IsFirst [] = unfold first_candidate in tt
sorted-IsFirst (p ∷ cs) =
    rw (first-insert p (sort_candidates cs))
      (winner-IsFirst p cs (first_candidate (sort_candidates cs)) (sorted-IsFirst cs))

abbrev MayHost : String → RoomPlayer → Type 0
MayHost leaving p = (is_seated p.status ≡ true) × (str_eq p.user_id leaving ≡ false)

host_candidates-In :
    (leaving : String) (players : List RoomPlayer) (h : RoomPlayer)
    → In h (host_candidates leaving players)
    → In h players × MayHost leaving h
unfolding host_candidates
host_candidates-In leaving [] h m = absurd m
host_candidates-In leaving (p ∷ ps) h m = elim (Bool-cases (str_eq p.user_id leaving)) [
  | inl e ↦ let (n, may) = host_candidates-In leaving ps h (rw (e) at m) in (inr n, may)
  | inr e ↦ elim (Bool-cases (is_seated p.status)) [
    | inl f ↦ at_place e f (host_candidates-In leaving ps h) (rw (e, f) at m)
    | inr f ↦ let (n, may) = host_candidates-In leaving ps h (rw (e, f) at m) in (inr n, may)
  ]
]
  where
    at_place :
        str_eq p.user_id leaving ≡ false
        → is_seated p.status ≡ true
        → (In h (host_candidates leaving ps) → In h ps × MayHost leaving h)
        → In h (p ∷ host_candidates leaving ps)
        → In h (p ∷ ps) × MayHost leaving h
    at_place e f rest (inl same) = (inl same, rw (same) (f, e))
    at_place e f rest (inr m) = let (n, may) = rest m in (inr n, may)

host_candidates-All :
    (P : RoomPlayer → Type 0) (leaving : String) (players : List RoomPlayer)
    → All P (host_candidates leaving players)
    → All (λ p. MayHost leaving p → P p) players
unfolding host_candidates
host_candidates-All P leaving [] h = tt
host_candidates-All P leaving (p ∷ ps) h = elim (Bool-cases (str_eq p.user_id leaving)) [
  | inl e ↦
      (λ (s, n). absurd (true≢false (sym e ∙ n)), host_candidates-All P leaving ps (rw (e) at h))
  | inr e ↦ elim (Bool-cases (is_seated p.status)) [
    | inl f ↦
        let (here, rest) = rw (e, f) at h in (λ _. here, host_candidates-All P leaving ps rest)
    | inr f ↦ (
      λ (s, n). absurd (true≢false (sym s ∙ f)),
      host_candidates-All P leaving ps (rw (e, f) at h),
    )
  ]
]

-- The choice is none if no other player holds a seat. Else it is a player of the room who holds a seat
-- and is not the one who leaves, and no other such player has a smaller seat number.
abbrev pub IsNextHost : String → List RoomPlayer → Option RoomPlayer → Type 0
IsNextHost leaving players none = All (λ p. MayHost leaving p → ⊥) players
IsNextHost leaving players (some h) =
    In h players
    × MayHost leaving h
    × All (λ p. MayHost leaving p → leb_ℤ h.seat_no p.seat_no ≡ true) players

choice-IsNextHost :
    (leaving : String) (players : List RoomPlayer) (o : Option RoomPlayer)
    → IsFirst (host_candidates leaving players) o
    → IsNextHost leaving players o
choice-IsNextHost leaving players none h = host_candidates-All (λ p. ⊥) leaving players h
choice-IsNextHost leaving players (some c) (m, h) =
    let (n, may) = host_candidates-In leaving players c m in
    (n, may, host_candidates-All (λ p. leb_ℤ c.seat_no p.seat_no ≡ true) leaving players h)

-- The next host is a seated player who is not the one who leaves, with the smallest seat number among
-- these, and there is none only if there is no such player.
pub select_next_host-IsNextHost :
    (players : List RoomPlayer) (leaving : String)
    → IsNextHost leaving players (select_next_host players leaving)
unfolding select_next_host
select_next_host-IsNextHost players leaving =
    choice-IsNextHost leaving players _ (sorted-IsFirst (host_candidates leaving players))
