-- ===== src/Login/Roles.antt =====
-- The requests about roles: onCreateHumReq, onDelHumReq, onLoginGame, syncPlayerHumBaseData of
-- bmloginsvrapp/handle_eventfromclient.go, SavePlayerData and SavePlayerExtData of
-- handle_eventfromserver.go, and getSaveFileHandle of utils.go.
use bmservers.Prelude.{
  ℕ, suc, zero, not, Option, none, some, List, [], ◌∷◌, ◌++◌, ◌==◌, if◌then◌else◌, GoString,
}
use bmservers.Prelude.Int.{pos}
use bmservers.Prelude.Assoc.{int_key, nat_key}
use bmservers.Sql.Engine.{Engine}
use bmservers.Account.{db_user_name_exist, db_add_user_name_by_uid, db_remove_user_name_by_uid}
use bmservers.Ranks.{db_remove_user_rank_info}
use bmservers.Login.State.{
  ClientNode, Message, Output, Login, Saves, CreateHumReq, SavePlayerDataReq, SavePlayerExtDataReq,
  send, quick_message_ntf, player_hum_base_data_ntf, create_hum_rsp, del_hum_rsp,
}

module _ {Db Files : Type 0} where
  -- A message goes out on a connection; errors of Send are ignored.
  abbrev pub sends : ℕ → Message → Login Db Files → Login Db Files
  sends conn m s = record s { outputs = s.outputs ++ send conn m ∷ [] }

  abbrev pub emits : Output → Login Db Files → Login Db Files
  emits o s = record s { outputs = s.outputs ++ o ∷ [] }

module _ {Db Files : Type 0} (sql : Engine Db) (saves : Saves Files) where
  -- The handle of the user's save file, which is made if it is not there; 0 on an error.
  unfoldable pub get_save_file_handle : ℕ → Login Db Files → ℕ × Login Db Files
  get_save_file_handle uid s =
      let (made, files) = saves.mkdir_all uid s.files in
      let (handle, files') = saves.open_hum_save uid (saves.create_hum_save uid files) in
      if uid == 0
      then (0, s)
      else if made
      then (handle, record s { files = files' })
      else (0, record s { files = files })

  unfoldable pub close_hum_save : ℕ → Login Db Files → Login Db Files
  close_hum_save handle s = record s { files = saves.close_hum_save handle s.files }

  -- The loop of syncPlayerHumBaseData over the indices that are left.
  unfoldable pub read_heads : ℕ → ℕ → ℕ → Files → List (ℕ × GoString)
  read_heads zero i handle files = []
  read_heads (suc n) i handle files =
      let (size, buffer) = saves.read_game_role_head_info handle i files in
      let rest = read_heads n (suc i) handle files in if size == 0 then rest else (i, buffer) ∷ rest

  unfoldable pub sync_player_hum_base_data : ℕ → ClientNode → Login Db Files → Login Db Files
  unfolding get_save_file_handle close_hum_save
  sync_player_hum_base_data conn client s =
      let (handle, s') = get_save_file_handle client.uid s in
      if handle == 0
      then s'
      else close_hum_save handle
          (sends conn (player_hum_base_data_ntf (read_heads 3 0 handle s'.files)) s')

  -- The part of onCreateHumReq after AddGameRole.
  unfoldable pub answer_created :
      ℕ → ClientNode → CreateHumReq → ℕ → Login Db Files → Login Db Files
  answer_created conn client pb r1 s =
      let t = sends conn (create_hum_rsp pb.name pb.job pb.sex (pos 1)) s in
      let (added, db) = db_add_user_name_by_uid sql client.uid pb.name t.db in
      let u = record t { db = db } in
      if not (r1 == 0)
      then sends conn (create_hum_rsp pb.name pb.job pb.sex (pos 0)) s
      else if added
      then u
      else sends conn (quick_message_ntf (pos 6) (pos 0)) u

  unfoldable pub on_create_hum_req : ℕ → ClientNode → CreateHumReq → Login Db Files → Login Db Files
  unfolding get_save_file_handle close_hum_save answer_created
  on_create_hum_req conn client pb s =
      let (handle, s') = get_save_file_handle client.uid s in
      let (r1, files) = saves.add_game_role handle pb.name pb.job pb.sex s'.files in
      if handle == 0
      then s'
      else close_hum_save handle (
          if db_user_name_exist sql pb.name s'.db
          then sends conn (quick_message_ntf (pos 4) (pos 0)) s'
          else answer_created conn client pb r1 (record s' { files = files }))

  -- The errors of the two removals from the database are only logged.
  unfoldable pub on_del_hum_req : ℕ → ClientNode → GoString → Login Db Files → Login Db Files
  unfolding get_save_file_handle close_hum_save
  on_del_hum_req conn client name s =
      let (handle, s') = get_save_file_handle client.uid s in
      let (r1, files) = saves.del_game_role handle name s'.files in
      let t = record s' { files = files } in
      let (_, db) = db_remove_user_name_by_uid sql client.uid name t.db in
      let (_, db') = db_remove_user_rank_info sql name db in
      if handle == 0
      then s'
      else close_hum_save handle
          (if r1 == 0 then sends conn (del_hum_rsp name) (record t { db = db' }) else t)

  -- The effect of a save request that has the file open. `&pb.Data[0]` panics on empty data, which
  -- is `none`; the error codes are only logged.
  unfoldable pub save_player_ext_data :
      SavePlayerExtDataReq → Login Db Files → Option (Login Db Files)
  unfolding get_save_file_handle close_hum_save
  save_player_ext_data pb s =
      let (handle, s') = get_save_file_handle pb.uid s in
      let (_, files) = saves.write_extend_data handle pb.name pb.ext_index pb.role_data s'.files in
      if handle == 0 then some s' else elim pb.role_data [
        | [] ↦ none
        | b ∷ bytes ↦ some (close_hum_save handle (record s' { files = files }))
      ]

  -- The head is updated before the data is looked at.
  unfoldable pub save_player_data : SavePlayerDataReq → Login Db Files → Option (Login Db Files)
  unfolding get_save_file_handle close_hum_save
  save_player_data pb s =
      let (handle, s') = get_save_file_handle pb.uid s in
      let (_, files) = saves.update_game_role_info handle pb.name pb.level s'.files in
      let (_, files') = saves.write_game_role_data handle pb.name pb.role_data files in
      if handle == 0 then some s' else elim pb.role_data [
        | [] ↦ none
        | b ∷ bytes ↦ some (close_hum_save handle (record s' { files = files' }))
      ]
