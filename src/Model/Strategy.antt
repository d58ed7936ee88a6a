-- ===== src/Model/Strategy.antt =====
-- backend/model/intermediate_strategy.go: the hint for the player.
use blackjack.Prelude.{
  ℕ, str_eq, Bool, true, false, not, ◌&&◌, ◌||◌, List, leb, ◌==◌, if◌then◌else◌, length,
}
use blackjack.Model.Session.{StoredCard}
use blackjack.Model.Hand.{HandEvaluator}

unfoldable pub dealer_up_value : StoredCard → ℕ
dealer_up_value c =
    if str_eq c.rank "A"
    then 11
    else if str_eq c.rank "K" || str_eq c.rank "Q" || str_eq c.rank "J" || str_eq c.rank "10"
    then 10
    else if str_eq c.rank "9"
    then 9
    else if str_eq c.rank "8"
    then 8
    else if str_eq c.rank "7"
    then 7
    else if str_eq c.rank "6"
    then 6
    else if str_eq c.rank "5"
    then 5
    else if str_eq c.rank "4"
    then 4
    else if str_eq c.rank "3"
    then 3
    else if str_eq c.rank "2"
    then 2
    else 10

unfoldable pub soft_hit_or_stand : HandEvaluator → List StoredCard → ℕ → Bool
soft_hit_or_stand ev player dealer_value =
    let v = ev.value player in
    if leb 19 v then false else if v == 18 then leb 9 dealer_value || dealer_value == 11 else true

unfoldable pub hard_hit_or_stand : HandEvaluator → List StoredCard → ℕ → Bool
hard_hit_or_stand ev player dealer_value =
    let v = ev.value player in
    if leb 17 v
    then false
    else if v == 16 || v == 15 || v == 14 || v == 13
    then not (leb 2 dealer_value && leb dealer_value 6)
    else if v == 12
    then not (leb 4 dealer_value && leb dealer_value 6)
    else if v == 11
    then true
    else if v == 10
    then leb 10 dealer_value || dealer_value == 11
    else true

unfoldable pub recommend_hit_or_stand : HandEvaluator → List StoredCard → StoredCard → Bool
unfolding dealer_up_value soft_hit_or_stand hard_hit_or_stand
recommend_hit_or_stand ev player dealer_up =
    let dv = dealer_up_value dealer_up in
    if length player == 0 || ev.is_bust player
    then false
    else if ev.is_soft player
    then soft_hit_or_stand ev player dv
    else hard_hit_or_stand ev player dv
