-- ===== src/Round/Invariant.antt =====
-- The invariant of a round of backend/usecase/game_usecase.go: which cards lie on the table, and how many.
use mathlib.Core.List.{Perm}
use blackjack.Prelude.{◌+◌, ◌≤◌, ◌≡◌, true, List, ◌++◌, length, take, All, is_some}
use blackjack.Prelude.Int.{ℤ, pos}
use blackjack.Model.Status.{is_player_turn, is_active}
use blackjack.Model.Session.{StoredCard}
use blackjack.Adapter.Convert.{IsStandard}
use blackjack.Round.Deck.{sorted_deck}
use blackjack.Round.Deal.{Round}

-- A rearranged full deck of 52 named cards, of which the first ones are the player's cards `ps` and the dealer's
-- cards `ds`.
pub record Cards (deck : List StoredCard) (index : ℤ) (ps ds : List StoredCard) : Type 0 where
  pub full : Perm deck sorted_deck
  pub deck_size : length deck ≡ 52
  pub deck_standard : All IsStandard deck
  pub player_standard : All IsStandard ps
  pub dealer_standard : All IsStandard ds
  pub drawn : index ≡ pos (length ps + length ds)
  pub dealt : Perm (ps ++ ds) (take (length ps + length ds) deck)

abbrev pub CardsOf : Round → Type 0
CardsOf r = Cards r.session.deck r.session.draw_index r.player.hand r.dealer.hand

-- The player has at most 21 cards while he may draw, and 22 after; the dealer never has more than 17.
-- The player's turn, an active player and a set deadline go together.
pub record Inv (r : Round) : Type 0 where
  pub cards : CardsOf r
  pub player_size : length r.player.hand ≤ 22
  pub dealer_size : length r.dealer.hand ≤ 17
  pub turn_size : is_player_turn r.session.status ≡ true → length r.player.hand ≤ 21
  pub turn_active : is_player_turn r.session.status ≡ true → is_active r.player.status ≡ true
  pub turn_deadline : is_some r.session.turn_deadline_at ≡ is_player_turn r.session.status
