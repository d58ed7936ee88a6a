-- ===== src/Repository/Pg.antt =====
-- backend/repository/game_repository.go: `pgStore` as a store. `clock` is what time.Now() returns.
use blackjack.Model.Room.{Time}
use blackjack.Store.{Store}
use blackjack.Repository.Cards.{CardCodec}
use blackjack.Repository.Gorm.{Database}
use blackjack.Repository.Sessions
use blackjack.Repository.Rooms
use blackjack.Repository.Hands
use blackjack.Repository.Logs
use blackjack.Repository.Users

abbrev pub pg_store : Database → CardCodec → Time → Store
pg_store g json clock = record {
  Db = g.Db;
  create_room = Rooms.create_room g;
  update_room = Rooms.update_room g;
  get_room = Rooms.get_room g;
  list_rooms_by_user_id = Rooms.list_rooms_by_user_id g;
  delete_room_players_by_room_id = Rooms.delete_room_players_by_room_id g;
  count_rooms = Rooms.count_rooms g;
  create_session = Sessions.create_session g json;
  update_session = Sessions.update_session g json;
  update_session_if_version = Sessions.update_session_if_version g json;
  get_session = Sessions.get_session g json;
  get_session_for_update = Sessions.get_session_for_update g json;
  get_latest_session_by_room_id = Sessions.get_latest_session_by_room_id g json;
  list_sessions_by_status_and_deadline_before =
      Sessions.list_sessions_by_status_and_deadline_before g json;
  list_resetting_sessions_due_by = Sessions.list_resetting_sessions_due_by g json;
  list_sessions_by_status = Sessions.list_sessions_by_status g json;
  delete_game_sessions_by_room_id = Sessions.delete_game_sessions_by_room_id g json;
  count_sessions = Sessions.count_sessions g json;
  create_room_player = Rooms.create_room_player g;
  update_room_player = Rooms.update_room_player g;
  get_room_player = Rooms.get_room_player g;
  list_room_players_by_room_id = Rooms.list_room_players_by_room_id g;
  create_player_state = Hands.create_player_state g json;
  update_player_state = Hands.update_player_state g json;
  get_player_state = Hands.get_player_state g json;
  list_player_states_by_session_id = Hands.list_player_states_by_session_id g json;
  create_dealer_state = Hands.create_dealer_state g json;
  update_dealer_state = Hands.update_dealer_state g json;
  get_dealer_state = Hands.get_dealer_state g json;
  create_user = Users.create_user g;
  get_user_by_username = Users.get_user_by_username g;
  get_user_by_id = Users.get_user_by_id g;
  upsert_session = Users.upsert_session g;
  get_auth_session = Users.get_auth_session g;
  delete_session = Users.delete_session g;
  delete_sessions_by_user_id = Users.delete_sessions_by_user_id g;
  delete_expired_sessions = Users.delete_expired_sessions g clock;
  create_action_log = Logs.create_action_log g;
  get_action_log_by_action_id = Logs.get_action_log_by_action_id g;
  upsert_rematch_vote = Logs.upsert_rematch_vote g clock;
  list_rematch_votes = Logs.list_rematch_votes g;
  create_round_log = Logs.create_round_log g;
  get_round_log = Logs.get_round_log g;
  list_round_logs_by_room_id = Logs.list_round_logs_by_room_id g;
  transaction = g.transaction;
}
