-- ===== src/Repository/Hands.antt =====
-- backend/repository/game_repository.go: the operations of pgStore on the states of players and dealers.
use blackjack.Prelude.{String, str_eq, ◌&&◌, List, some}
use blackjack.Prelude.Result.{◌>>=◌}
use blackjack.Model.Player.{PlayerState, DealerState}
use blackjack.Store.{Read, Write}
use blackjack.Repository.Cards.{
  CardCodec, player_state_record_from_domain, player_state_record_to_domain,
  dealer_state_record_from_domain, dealer_state_record_to_domain,
}
use blackjack.Repository.Gorm.{Database, unordered, ascending, mapped, write_row, all_to_domain}

module _ (g : Database) (json : CardCodec) where
  unfoldable pub create_player_state : PlayerState → Write g.Db (Unit {0})
  create_player_state p db =
      write_row (player_state_record_from_domain json p) g.player_states.create db

  unfoldable pub update_player_state : PlayerState → Write g.Db (Unit {0})
  update_player_state p db =
      write_row (player_state_record_from_domain json p) g.player_states.save db

  unfoldable pub get_player_state : String → String → Read g.Db PlayerState
  get_player_state session_id user_id db =
      mapped (
        g.player_states.first
          (λ rec. str_eq rec.session_id session_id && str_eq rec.user_id user_id) unordered db)
      >>= player_state_record_to_domain json

  unfoldable pub list_player_states_by_session_id : String → Read g.Db (List PlayerState)
  list_player_states_by_session_id session_id db =
      mapped (
        g.player_states.find (λ rec. str_eq rec.session_id session_id)
          (ascending (λ rec. some rec.seat_no)) db)
      >>= all_to_domain (player_state_record_to_domain json)

  unfoldable pub create_dealer_state : DealerState → Write g.Db (Unit {0})
  create_dealer_state d db =
      write_row (dealer_state_record_from_domain json d) g.dealer_states.create db

  unfoldable pub update_dealer_state : DealerState → Write g.Db (Unit {0})
  update_dealer_state d db =
      write_row (dealer_state_record_from_domain json d) g.dealer_states.save db

  unfoldable pub get_dealer_state : String → Read g.Db DealerState
  get_dealer_state session_id db =
      mapped (g.dealer_states.first (λ rec. str_eq rec.session_id session_id) unordered db)
      >>= dealer_state_record_to_domain json
