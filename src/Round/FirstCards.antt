-- ===== src/Round/FirstCards.antt =====
-- `initialDeal` of backend/usecase/game_usecase.go: the four cards that it deals.
use mathlib.Core.List.{Perm}
use mathlib.Core.List.Perm
use blackjack.Prelude.{◌≡◌, List, [], ◌∷◌, arith, length, take, All}
use blackjack.Prelude.Int.{pos}
use blackjack.Prelude.Result.{ok}
use blackjack.Model.Session.{StoredCard, GameSession}
use blackjack.Model.Player.{PlayerState, DealerState}
use blackjack.Model.Hand.{HandEvaluator, RoundEngine}
use blackjack.Adapter.Convert.{IsStandard}
use blackjack.Adapter.Rules.{IsHandRules}
use blackjack.Round.Deck.{sorted_deck}
use blackjack.Round.Deal.{Round, initial_deal}
use blackjack.Round.Invariant.{Cards}
use blackjack.Round.Draw.{Draws, Cards-Draws, Cards-player, Cards-dealer}

-- The round after the deal of four cards.
abbrev pub after_deal :
    GameSession
    → PlayerState
    → DealerState
    → (StoredCard × StoredCard × StoredCard × StoredCard)
    → Round
after_deal s p d (c1, c2, c3, c4) = record {
  session = record s { draw_index = pos 4 };
  player = record p { hand = c1 ∷ c3 ∷ [] };
  dealer = record d { hand = c2 ∷ c4 ∷ [] };
}

-- The four cards are the first of the deck, and lie on the table.
pub record Dealt (deck : List StoredCard)
    (cards : StoredCard × StoredCard × StoredCard × StoredCard) : Type 0 where
  pub first_four : take 4 deck ≡ cards.0 ∷ cards.1 ∷ cards.2 ∷ cards.3 ∷ []
  pub on_table : Cards deck (pos 4) (cards.0 ∷ cards.2 ∷ []) (cards.1 ∷ cards.3 ∷ [])

module _ {ev : HandEvaluator} {engine : RoundEngine} (rules : IsHandRules ev engine) where
  pub initial_deal_lem :
      (s : GameSession) (p : PlayerState) (d : DealerState)
      → Perm s.deck sorted_deck
      → length s.deck ≡ 52
      → All IsStandard s.deck
      → s.draw_index ≡ pos 0
      → (cards : StoredCard × StoredCard × StoredCard × StoredCard) × (initial_deal engine (record {
        session = s;
        player = record p { hand = [] };
        dealer = record d { hand = [] };
      })
          ≡ ok (after_deal s p d cards))
        × Dealt s.deck cards
  unfolding initial_deal
  initial_deal_lem s p d full size standard index =
      let v0 : Cards s.deck s.draw_index [] [] = record {
        full = full;
        deck_size = size;
        deck_standard = standard;
        player_standard = tt;
        dealer_standard = tt;
        drawn = index;
        dealt = Perm.refl [];
      } in
      let d1 : Draws s 0 = Cards-Draws s [] [] v0 (omega arith) in
      let s1 : GameSession = record s { draw_index = pos 1 } in
      let v1 : Cards s.deck (pos 1) (d1.card ∷ []) [] = Cards-player v0 d1 in
      let d2 : Draws s1 1 = Cards-Draws s1 (d1.card ∷ []) [] v1 (omega arith) in
      let s2 : GameSession = record s { draw_index = pos 2 } in
      let v2 : Cards s.deck (pos 2) (d1.card ∷ []) (d2.card ∷ []) = Cards-dealer v1 d2 in
      let d3 : Draws s2 2 = Cards-Draws s2 (d1.card ∷ []) (d2.card ∷ []) v2 (omega arith) in
      let s3 : GameSession = record s { draw_index = pos 3 } in
      let v3 : Cards s.deck (pos 3) (d1.card ∷ d3.card ∷ []) (d2.card ∷ []) = Cards-player v2 d3 in
      let d4 : Draws s3 3 =
        Cards-Draws s3 (d1.card ∷ d3.card ∷ []) (d2.card ∷ []) v3 (omega arith) in
      let v4 : Cards s.deck (pos 4) (d1.card ∷ d3.card ∷ []) (d2.card ∷ d4.card ∷ []) =
        Cards-dealer v3 d4 in
      (
        (d1.card, d2.card, d3.card, d4.card),
        rw (
          d1.draws,
          rules.hit_appends [] d1.card tt d1.standard,
          d2.draws,
          rules.hit_appends [] d2.card tt d2.standard,
          d3.draws,
          rules.hit_appends (d1.card ∷ []) d3.card v1.player_standard d3.standard,
          d4.draws,
          rules.hit_appends (d2.card ∷ []) d4.card v2.dealer_standard d4.standard,
        ),
        record { first_four = rw (d4.taken, d3.taken, d2.taken, d1.taken); on_table = v4 },
      )
