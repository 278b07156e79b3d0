-- ===== src/Login/HandOver.antt =====
-- onLoginGame of bmloginsvrapp/handle_eventfromclient.go: to whom the data of a role goes.
use mathlib.Core.List.{append_assoc, append-nil}
use bmservers.Prelude.{
  Gives, Gives-some, Gives-map, ℕ, ◌%◌, ◌^◌, ◌≡◌, ◌≢◌, ◌⊎◌, refl, inl, inr, ap, ◌∙◌, sym, subst,
  not, ◌&&◌, Option, none, some, List, [], ◌∷◌, ◌++◌, arith, ◌==◌, ltb, GoString, All, All-append,
  Bool-cases, Option-cases,
}
use bmservers.Prelude.Int.{pos}
use bmservers.Prelude.Assoc.{int_eq, int_eq_iff}
use bmservers.Sql.Engine.{Engine}
use bmservers.Online.{db_get_player_online_server_id}
use bmservers.Login.State.{
  ClientNode, ServerNode, Message, Output, HumData, Login, Saves, send, quick_message_ntf,
  player_login_hum_data_ntf, player_login_ext_hum_data_ntf,
}
use bmservers.Login.Roles.{sends, get_save_file_handle, close_hum_save}
use bmservers.Login.LoginGame.{
  LoginExtendInfo, extend_info, send_ext_data, hand_over, read_role, open_and_read, on_login_game,
  server_at,
}

-- The data of a role goes to the server only, and names the client.
abbrev pub IsForServer : ServerNode → ClientNode → Output → Type 0
IsForServer gs client (send c (player_login_hum_data_ntf hd)) =
    (c ≡ gs.conn)
    × (hd.uid ≡ client.uid)
    × (hd.gid ≡ client.gs_conn_id)
    × (hd.lid ≡ client.client_conn_id)
IsForServer gs client (send c (player_login_ext_hum_data_ntf hd)) =
    (c ≡ gs.conn) × (hd.uid ≡ client.uid) × (hd.gid ≡ client.gs_conn_id)
IsForServer gs client o = Unit

-- What is done to connections, after what was done before.
abbrev pub Adds : (Output → Type 0) → List Output → List Output → Type 0
Adds P xs ys = (extra : List Output) × (ys ≡ xs ++ extra) × All P extra

Adds-nothing : (P : Output → Type 0) (xs : List Output) → Adds P xs xs
Adds-nothing P xs = ([], sym (append-nil xs), tt)

Adds-then :
    (P : Output → Type 0) (xs ys zs : List Output) → Adds P xs ys → Adds P ys zs → Adds P xs zs
Adds-then P xs ys zs (es, e, h) (es', e', h') =
    (es ++ es', e' ∙ ap (λ o. o ++ es') e ∙ append_assoc xs es es', All-append P es es' h h')

Adds-one : (P : Output → Type 0) (xs : List Output) (o : Output) → P o → Adds P xs (xs ++ o ∷ [])
Adds-one P xs o h = (o ∷ [], refl, (h, tt))

outputs-get_save_file_handle :
    {Db Files : Type 0} (sql : Engine Db) (saves : Saves Files) (uid : ℕ) (s : Login Db Files)
    → (get_save_file_handle sql saves uid s).1.outputs ≡ s.outputs
unfolding get_save_file_handle
outputs-get_save_file_handle sql saves uid s = ground arith

module _ {Db Files : Type 0} (sql : Engine Db) (saves : Saves Files)
    (json : LoginExtendInfo → GoString) (conn : ℕ) (client : ClientNode) (gs : ServerNode)
    (name : GoString) where
  -- Every output that the login adds is one that is for the server.
  abbrev AddsFrom : Login Db Files → Option (Login Db Files) → Type 0
  AddsFrom s o = Gives (λ t. Adds (IsForServer gs client) s.outputs t.outputs) o

  adds-send_ext_data :
      (handle : ℕ) (s : Login Db Files)
      → AddsFrom s (send_ext_data sql saves json conn client gs name handle s)
  unfolding send_ext_data
  adds-send_ext_data handle s =
      let P = IsForServer gs client in
      let size = saves.read_extend_data_size handle name 0 s.files in
      let told = s.outputs ++ send conn (quick_message_ntf (pos 3) (pos 0)) ∷ [] in
      elim (Bool-cases (size == 0)) [
        | inl e ↦ rw (send_ext_data, e) (Adds-one P s.outputs _ (refl, refl, refl))
        | inr e ↦ elim (Bool-cases (size % 2 ^ 32 == 0)) [
          | inl e' ↦ rw (send_ext_data, e, e') tt
          | inr e' ↦
              elim (Bool-cases
                ((saves.read_extend_data handle name 0 (size % 2 ^ 32) s.files).0 == 0)) [
                  | inl e'' ↦
                      rw (send_ext_data, e, e', e'') (Adds-one P s.outputs _ (refl, refl, refl))
                  | inr e'' ↦
                      rw (send_ext_data, e, e', e'')
                        (Adds-then P s.outputs told _ (Adds-one P s.outputs _ tt)
                          (Adds-one P told _ (refl, refl, refl)))
                ]
        ]
      ]

  adds-hand_over :
      (handle : ℕ) (role_data : Option GoString) (index : ℕ) (s : Login Db Files)
      → AddsFrom s (hand_over sql saves json conn client gs name handle role_data index s)
  unfolding hand_over
  adds-hand_over handle role_data index s =
      let P = IsForServer gs client in
      let (job, sex, level) = saves.get_game_role_info handle index s.files in
      let ntf : HumData = record {
        gid = client.gs_conn_id;
        conn_id = client.conn_code;
        lid = client.client_conn_id;
        uid = client.uid;
        name = name;
        sex = sex;
        job = job;
        level = level;
        role_data = role_data;
        json_data = elim (json (extend_info sql saves json client.uid s.db)) [
          | [] ↦ none
          | b ∷ bytes ↦ some (b ∷ bytes)
        ];
      } in
      let s' = sends gs.conn (player_login_hum_data_ntf ntf) s in
      elim (Option-cases (send_ext_data sql saves json conn client gs name handle s')) [
        | inl e ↦ rw (hand_over, e) tt
        | inr (t, e) ↦
            rw (hand_over, e)
              (Adds-then P s.outputs s'.outputs t.outputs
                (Adds-one P s.outputs (send gs.conn (player_login_hum_data_ntf ntf))
                  (refl, refl, refl, refl))
                (Gives-some (λ u. Adds P s'.outputs u.outputs) _ e (adds-send_ext_data handle s')))
      ]

  adds-read_role :
      (handle : ℕ) (s : Login Db Files)
      → AddsFrom s (read_role sql saves json conn client gs name handle s)
  unfolding read_role
  adds-read_role handle s =
      let P = IsForServer gs client in
      let size = saves.read_game_role_size handle name s.files in
      let index = saves.get_game_role_index handle name s.files in
      let bytes = (saves.read_game_role_data handle name (size % 2 ^ 32) s.files).1 in
      elim (Bool-cases (ltb 2 index)) [
        | inl e ↦ rw (read_role, e) (Adds-one P s.outputs _ tt)
        | inr e ↦ elim (Bool-cases (size == 0)) [
          | inl e' ↦ rw (read_role, e, e') (adds-hand_over handle none index s)
          | inr e' ↦ elim (Bool-cases (size % 2 ^ 32 == 0)) [
            | inl e'' ↦ rw (read_role, e, e', e'') tt
            | inr e'' ↦
                elim (Bool-cases
                  ((saves.read_game_role_data handle name (size % 2 ^ 32) s.files).0 == 0)) [
                    | inl r ↦
                        rw (read_role, e, e', e'', r) (adds-hand_over handle (some bytes) index s)
                    | inr r ↦ rw (read_role, e, e', e'', r) (Adds-one P s.outputs _ tt)
                  ]
          ]
        ]
      ]

  adds-open_and_read :
      (s : Login Db Files) → AddsFrom s (open_and_read sql saves json conn client gs name s)
  unfolding open_and_read close_hum_save
  adds-open_and_read s =
      let P = IsForServer gs client in
      let handle = (get_save_file_handle sql saves client.uid s).0 in
      let s' = (get_save_file_handle sql saves client.uid s).1 in
      let same : s'.outputs ≡ s.outputs = outputs-get_save_file_handle sql saves client.uid s in
      elim (Bool-cases (handle == 0)) [
        | inl e ↦ rw (open_and_read, e, same) (Adds-one P s.outputs _ tt)
        | inr e ↦ elim (Option-cases (read_role sql saves json conn client gs name handle s')) [
          | inl e' ↦ rw (open_and_read, e, e') tt
          | inr (t, e') ↦
              rw (open_and_read, e, e')
                (subst (λ o. Adds P o t.outputs) same
                  (Gives-some (λ u. Adds P s'.outputs u.outputs) _ e' (adds-read_role handle s')))
        ]
      ]

-- A login that goes on: the client is tied to a registered server, and is on no other.
pub record IsLogin {Db Files : Type 0} (sql : Engine Db) (saves : Saves Files)
    (json : LoginExtendInfo → GoString) (client : ClientNode) (s t : Login Db Files) : Type 0 where
  pub gs : ServerNode
  pub server : server_at sql saves json client.gs_server_id s ≡ some gs
  pub tied : client.gs_server_id ≢ pos 0
  pub online :
      (db_get_player_online_server_id sql client.uid s.db ≡ pos 0)
      ⊎ (db_get_player_online_server_id sql client.uid s.db ≡ client.gs_server_id)
  pub adds : Adds (IsForServer gs client) s.outputs t.outputs

module _ {Db Files : Type 0} (sql : Engine Db) (saves : Saves Files)
    (json : LoginExtendInfo → GoString) (conn : ℕ) (client : ClientNode) (name : GoString) where
  -- A request to log in to the game either only sends one message back to the client, or comes from
  -- a client that is tied to a registered server and is on no other; then all role data goes out on
  -- that server's connection, with the uid and the connection ids of the client.
  pub on_login_game-IsLogin :
      (s : Login Db Files)
      → Gives
          (λ t. ((m : Message) × (t ≡ sends conn m s)) ⊎ IsLogin sql saves json client s t)
          (on_login_game sql saves json conn client name s)
  unfolding on_login_game
  on_login_game-IsLogin s =
      let prev = db_get_player_online_server_id sql client.uid s.db in
      elim (Bool-cases (int_eq client.gs_server_id (pos 0))) [
        | inl e ↦ rw (on_login_game, e) (inl (_, refl))
        | inr e ↦
            elim (Bool-cases (not (int_eq prev (pos 0)) && not (int_eq prev client.gs_server_id))) [
              | inl e' ↦ rw (on_login_game, e, e') (inl (_, refl))
              | inr e' ↦ elim (Option-cases (server_at sql saves json client.gs_server_id s)) [
                | inl e'' ↦ rw (on_login_game, e, e', e'') (inl (_, refl))
                | inr (gs, e'') ↦
                    rw (on_login_game, e, e', e'')
                      (Gives-map (open_and_read sql saves json conn client gs name s)
                        (λ t h. inr (record {
                          gs = gs;
                          server = e'';
                          tied = λ z. ground (arith, (int_eq_iff client.gs_server_id (pos 0)).1 z);
                          online = ground (
                            arith,
                            (int_eq_iff prev (pos 0)).0,
                            (int_eq_iff prev client.gs_server_id).0,
                          );
                          adds = h;
                        }))
                        (adds-open_and_read sql saves json conn client gs name s))
              ]
            ]
      ]
