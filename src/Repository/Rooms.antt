-- ===== src/Repository/Rooms.antt =====
-- backend/repository/room_repository.go: the operations of pgStore on rooms and their players.
use blackjack.Prelude.{ℕ, String, str_eq, ◌&&◌, List, some}
use blackjack.Prelude.Int.{pos}
use blackjack.Prelude.Result.{◌>>=◌}
use blackjack.Model.Room.{Room, RoomPlayer}
use blackjack.Store.{Read, Write}
use blackjack.Repository.Convert.{
  room_record_from_domain, room_record_to_domain, room_player_record_from_domain,
  room_player_record_to_domain,
}
use blackjack.Repository.Gorm.{
  Database, unordered, descending, unmapped, mapped, written, all_to_domain,
}

module _ (g : Database) where
  unfoldable pub create_room : Room → Write g.Db (Unit {0})
  create_room room db = written (g.rooms.create (room_record_from_domain room) db)

  unfoldable pub update_room : Room → Write g.Db (Unit {0})
  update_room room db = written (g.rooms.save (room_record_from_domain room) db)

  unfoldable pub delete_room_players_by_room_id : String → Write g.Db (Unit {0})
  delete_room_players_by_room_id room_id db =
      written (g.room_players.delete (λ rec. str_eq rec.room_id room_id) db)

  unfoldable pub count_rooms : Read g.Db ℕ
  count_rooms db = unmapped (g.rooms.count db)

  unfoldable pub get_room : String → Read g.Db Room
  get_room id db =
      mapped (g.rooms.first (λ rec. str_eq rec.id id) unordered db) >>= room_record_to_domain

  unfoldable pub list_rooms_by_user_id : String → Read g.Db (List Room)
  list_rooms_by_user_id user_id db =
      mapped (
        g.rooms.find (λ rec. str_eq rec.host_user_id user_id)
          (descending (λ rec. some (pos rec.created_at))) db)
      >>= all_to_domain room_record_to_domain

  unfoldable pub create_room_player : RoomPlayer → Write g.Db (Unit {0})
  create_room_player p db = written (g.room_players.create (room_player_record_from_domain p) db)

  unfoldable pub update_room_player : RoomPlayer → Write g.Db (Unit {0})
  update_room_player p db = written (g.room_players.save (room_player_record_from_domain p) db)

  unfoldable pub get_room_player : String → String → Read g.Db RoomPlayer
  get_room_player room_id user_id db =
      mapped (
        g.room_players.first (λ rec. str_eq rec.room_id room_id && str_eq rec.user_id user_id)
          unordered db)
      >>= room_player_record_to_domain

  unfoldable pub list_room_players_by_room_id : String → Read g.Db (List RoomPlayer)
  list_room_players_by_room_id room_id db =
      unmapped (g.room_players.find (λ rec. str_eq rec.room_id room_id) unordered db)
      >>= all_to_domain room_player_record_to_domain
