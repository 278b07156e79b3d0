-- ===== src/Login/LoginGame.antt =====
-- onLoginGame of bmloginsvrapp/handle_eventfromclient.go, in the order of its steps.
use bmservers.Prelude.{
  ℕ, zero, suc, ◌%◌, ◌^◌, not, ◌&&◌, Option, none, some, List, [], ◌∷◌, ◌==◌, ltb, if◌then◌else◌,
  GoString,
}
use bmservers.Prelude.Int.{ℤ, pos, to_int32}
use bmservers.Prelude.Assoc.{int_eq, int_key, nat_key, lookup}
use bmservers.Sql.Rows.{GiftRow}
use bmservers.Sql.Engine.{Cond, Engine}
use bmservers.Donate.{db_get_user_donate_info, db_get_user_donate_left}
use bmservers.Online.{db_get_player_online_server_id, db_add_online_player}
use bmservers.Login.State.{
  ClientNode, ServerNode, HumData, ExtHumData, Login, Saves, quick_message_ntf,
  player_login_hum_data_ntf, player_login_ext_hum_data_ntf,
}
use bmservers.Login.Roles.{sends, get_save_file_handle, close_hum_save}

-- UserLoginExtendInfo; a nil slice of gifts is `none`.
pub record LoginExtendInfo : Type 0 where
  pub donate_money : ℤ
  pub donate_left : ℤ
  pub system_gift : Option (List ℤ)

abbrev pub gifts_of : ℕ → Cond GiftRow
gifts_of uid = record { spliced = []; holds = λ r. r.uid == uid }

-- The slice of `n` gift ids that the rows are written into; the rest stays 0.
abbrev pub filled : ℕ → List GiftRow → List ℤ
filled zero rows = []
filled (suc n) [] = pos 0 ∷ filled n []
filled (suc n) (r ∷ rows) = r.giftid ∷ filled n rows

module _ {Db Files : Type 0} (sql : Engine Db) (saves : Saves Files)
    (json : LoginExtendInfo → GoString) where
  unfoldable pub db_get_system_gift_id_by_uid : ℕ → Db → Option (List ℤ)
  db_get_system_gift_id_by_uid uid db = elim (sql.gifts.count (gifts_of uid) db) [
    | none ↦ none
    | some n ↦ if n == 0 then none else elim (sql.gifts.all (gifts_of uid) db) [
      | none ↦ none
      | some rows ↦ some (filled n rows)
    ]
  ]

  -- The extend information of a login.
  unfoldable pub extend_info : ℕ → Db → LoginExtendInfo
  unfolding db_get_system_gift_id_by_uid
  extend_info uid db =
      let gifts = db_get_system_gift_id_by_uid uid db in
      elim (db_get_user_donate_info sql uid db) [
        | none ↦ record { donate_money = pos 0; donate_left = pos 0; system_gift = gifts }
        | some info ↦ record {
          donate_money = info.donate;
          donate_left = to_int32 (db_get_user_donate_left sql uid db);
          system_gift = gifts;
        }
      ]

  -- The extended role data: sent also if there is none, or if it cannot be read.
  unfoldable pub send_ext_data :
      ℕ → ClientNode → ServerNode → GoString → ℕ → Login Db Files → Option (Login Db Files)
  send_ext_data conn client gs name handle s =
      let size = saves.read_extend_data_size handle name 0 s.files in
      let (r1, bytes) = saves.read_extend_data handle name 0 (size % 2 ^ 32) s.files in
      let ntf : ExtHumData = record {
        gid = client.gs_conn_id;
        conn_id = client.conn_code;
        uid = client.uid;
        ext_index = 0;
        role_data = none;
      } in
      if size == 0
      then some (sends gs.conn (player_login_ext_hum_data_ntf ntf) s)
      else if size % 2 ^ 32 == 0
      then none
      else if r1 == 0
      then some
          (sends gs.conn (player_login_ext_hum_data_ntf (record ntf { role_data = some bytes })) s)
      else some (
          sends gs.conn (player_login_ext_hum_data_ntf ntf)
            (sends conn (quick_message_ntf (pos 3) (pos 0)) s))

  -- The notice to the game server, the extended data, and the login status.
  unfoldable pub hand_over :
      ℕ
      → ClientNode
      → ServerNode
      → GoString
      → ℕ
      → Option GoString
      → ℕ
      → Login Db Files
      → Option (Login Db Files)
  unfolding extend_info send_ext_data
  hand_over conn client gs name handle role_data index s =
      let (job, sex, level) = saves.get_game_role_info handle index s.files in
      let ntf : HumData = record {
        gid = client.gs_conn_id;
        conn_id = client.conn_code;
        lid = client.client_conn_id;
        uid = client.uid;
        name = name;
        sex = sex;
        job = job;
        level = level;
        role_data = role_data;
        json_data = elim (json (extend_info client.uid s.db)) [
          | [] ↦ none
          | b ∷ bytes ↦ some (b ∷ bytes)
        ];
      } in
      elim (send_ext_data conn client gs name handle
        (sends gs.conn (player_login_hum_data_ntf ntf) s)) [
          | none ↦ none
          | some t ↦
              let (_, db) =
                db_add_online_player sql client.uid client.gs_server_id client.client_conn_id
                  t.db in
              some (record t { db = db })
        ]

  -- With the save file open: the role is looked up, and its data is read unless it is new.
  unfoldable pub read_role :
      ℕ → ClientNode → ServerNode → GoString → ℕ → Login Db Files → Option (Login Db Files)
  read_role conn client gs name handle s =
      let size = saves.read_game_role_size handle name s.files in
      let index = saves.get_game_role_index handle name s.files in
      let (r1, bytes) = saves.read_game_role_data handle name (size % 2 ^ 32) s.files in
      if ltb 2 index
      then some (sends conn (quick_message_ntf (pos 5) (pos 0)) s)
      else if size == 0
      then hand_over conn client gs name handle none index s
      else if size % 2 ^ 32 == 0
      then none
      else if r1 == 0
      then hand_over conn client gs name handle (some bytes) index s
      else some (sends conn (quick_message_ntf (pos 3) (pos 0)) s)

  abbrev pub server_at : ℤ → Login Db Files → Option ServerNode
  server_at id s = elim (lookup id s.server_node_map) [
    | none ↦ none
    | some p ↦ lookup p s.server_heap
  ]

  -- After the checks that need no file.
  unfoldable pub open_and_read :
      ℕ → ClientNode → ServerNode → GoString → Login Db Files → Option (Login Db Files)
  open_and_read conn client gs name s =
      let (handle, s') = get_save_file_handle sql saves client.uid s in
      if handle == 0
      then some (sends conn (quick_message_ntf (pos 2) (pos 0)) s')
      else elim (read_role conn client gs name handle s') [
        | none ↦ none
        | some t ↦ some (close_hum_save sql saves handle t)
      ]

  unfoldable pub on_login_game :
      ℕ → ClientNode → GoString → Login Db Files → Option (Login Db Files)
  on_login_game conn client name s =
      let prev = db_get_player_online_server_id sql client.uid s.db in
      if int_eq client.gs_server_id (pos 0)
      then some (sends conn (quick_message_ntf (pos 7) (pos 0)) s)
      else if not (int_eq prev (pos 0)) && not (int_eq prev client.gs_server_id)
      then some (sends conn (quick_message_ntf (pos 10) (to_int32 prev)) s)
      else elim (server_at client.gs_server_id s) [
        | none ↦ some (sends conn (quick_message_ntf (pos 7) (pos 0)) s)
        | some gs ↦ open_and_read conn client gs name s
      ]
