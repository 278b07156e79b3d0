-- ===== src/Login/Frame.antt =====
-- What the requests about roles of bmloginsvrapp/handle_eventfromclient.go leave alone.
use bmservers.Prelude.{
  Gives, ℕ, ◌%◌, ◌^◌, Option, none, some, ◌≡◌, arith, inl, inr, Option-cases, GoString,
}
use bmservers.Sql.Engine.{Engine}
use bmservers.Login.State.{
  ClientNode, ServerNode, Login, Saves, CreateHumReq, SavePlayerDataReq, SavePlayerExtDataReq,
}
use bmservers.Login.Roles.{
  get_save_file_handle, close_hum_save, sync_player_hum_base_data, on_create_hum_req,
  on_del_hum_req, save_player_data, save_player_ext_data,
}
use bmservers.Login.LoginGame.{
  LoginExtendInfo, send_ext_data, hand_over, read_role, open_and_read, on_login_game, server_at,
}

module _ {Db Files : Type 0} (sql : Engine Db) (saves : Saves Files) where
  peers-get_save_file_handle :
      (uid : ℕ) (s : Login Db Files) → (get_save_file_handle sql saves uid s).1.peers ≡ s.peers
  unfolding get_save_file_handle
  peers-get_save_file_handle uid s = ground arith

  pub peers-sync :
      (conn : ℕ) (cn : ClientNode) (s : Login Db Files)
      → (sync_player_hum_base_data sql saves conn cn s).peers ≡ s.peers
  unfolding sync_player_hum_base_data get_save_file_handle close_hum_save
  peers-sync conn cn s = ground arith

  pub peers-on_create_hum_req :
      (conn : ℕ) (cn : ClientNode) (pb : CreateHumReq) (s : Login Db Files)
      → (on_create_hum_req sql saves conn cn pb s).peers ≡ s.peers
  unfolding on_create_hum_req
  peers-on_create_hum_req conn cn pb s = ground arith

  pub peers-on_del_hum_req :
      (conn : ℕ) (cn : ClientNode) (name : GoString) (s : Login Db Files)
      → (on_del_hum_req sql saves conn cn name s).peers ≡ s.peers
  unfolding on_del_hum_req
  peers-on_del_hum_req conn cn name s = ground arith

  pub peers-save_player_data :
      (pb : SavePlayerDataReq) (s : Login Db Files)
      → Gives (λ t. t.peers ≡ s.peers) (save_player_data sql saves pb s)
  unfolding save_player_data
  peers-save_player_data pb s = ground arith

  pub peers-save_player_ext_data :
      (pb : SavePlayerExtDataReq) (s : Login Db Files)
      → Gives (λ t. t.peers ≡ s.peers) (save_player_ext_data sql saves pb s)
  unfolding save_player_ext_data
  peers-save_player_ext_data pb s = ground arith

module _ {Db Files : Type 0} (sql : Engine Db) (saves : Saves Files)
    (json : LoginExtendInfo → GoString) (conn : ℕ) (cn : ClientNode) where
  peers-send_ext_data :
      (gs : ServerNode) (name : GoString) (handle : ℕ) (s : Login Db Files)
      → Gives (λ t. t.peers ≡ s.peers) (send_ext_data sql saves json conn cn gs name handle s)
  unfolding send_ext_data
  peers-send_ext_data gs name handle s = ground arith

  peers-hand_over :
      (gs : ServerNode) (name : GoString) (handle : ℕ) (role_data : Option GoString) (index : ℕ)
      (s : Login Db Files)
      → Gives
          (λ t. t.peers ≡ s.peers)
          (hand_over sql saves json conn cn gs name handle role_data index s)
  unfolding hand_over
  peers-hand_over gs name handle role_data index s =
      ground (arith, peers-send_ext_data gs name handle _)

  peers-read_role :
      (gs : ServerNode) (name : GoString) (handle : ℕ) (s : Login Db Files)
      → Gives (λ t. t.peers ≡ s.peers) (read_role sql saves json conn cn gs name handle s)
  unfolding read_role
  peers-read_role gs name handle s =
      let index = saves.get_game_role_index handle name s.files in
      let size = saves.read_game_role_size handle name s.files in
      let bytes = (saves.read_game_role_data handle name (size % 2 ^ 32) s.files).1 in
      ground (
        arith,
        peers-hand_over gs name handle none index s,
        peers-hand_over gs name handle (some bytes) index s,
      )

  peers-open_and_read :
      (gs : ServerNode) (name : GoString) (s : Login Db Files)
      → Gives (λ t. t.peers ≡ s.peers) (open_and_read sql saves json conn cn gs name s)
  unfolding open_and_read close_hum_save
  peers-open_and_read gs name s = ground (
    arith,
    peers-get_save_file_handle sql saves cn.uid s,
    peers-read_role gs name (get_save_file_handle sql saves cn.uid s).0
        (get_save_file_handle sql saves cn.uid s).1,
  )

  pub peers-on_login_game :
      (name : GoString) (s : Login Db Files)
      → Gives (λ t. t.peers ≡ s.peers) (on_login_game sql saves json conn cn name s)
  unfolding on_login_game
  peers-on_login_game name s = elim (Option-cases (server_at sql saves json cn.gs_server_id s)) [
    | inl e ↦ ground arith
    | inr (gs, e) ↦ ground (arith, peers-open_and_read gs name s)
  ]
