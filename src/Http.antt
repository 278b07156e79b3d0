-- ===== src/Http.antt =====
-- The HTTP interface to the lobby in bmloginsvrapp/http_handler.go, http_rs_handler.go and
-- rpc_handler.go. A handler is given the values of the request, posts one message and waits for its
-- answer; the main thread is taken to process that message in between. encoding/json is a parameter.
pub mod Shop
pub mod Admin
pub mod Access
pub mod Sessions
mod Tests
use bmservers.Prelude.{
  ℕ, ◌-◌, Bool, true, false, not, ◌||◌, ◌&&◌, Option, none, some, List, [], ◌∷◌, ◌++◌,
  if◌then◌else◌, GoString, codes, length, ltb, leb, ◌==◌, str_eq, any,
}
use bmservers.Prelude.Int.{ℤ, pos, negsuc, ltb_ℤ, to_uint32}
use bmservers.Prelude.Assoc.{int_eq}
use bmservers.Prelude.Split.{split}
use bmservers.Prelude.Decimal.{itoa, atoi, atoi_value}
use bmservers.Sql.Engine.{Engine}
use bmservers.Donate.{db_on_consume_donate}
use bmservers.Lobby.{
  UserGameServer, MThreadEvent, remove_gs_addr, get_gs_addr, get_gs_list, register_gs,
  ls_register_account, ls_modify_password, MThreadMsg, Main, Answer,
}
use bmservers.Lobby.Messages.{process_m_thread_msg}

-- registergsRsp, RsHandlerRsp and AdminHandlerRsp are the same two fields.
pub record Rsp : Type 0 where
  pub result : ℤ
  pub msg : GoString

abbrev pub no_message : MThreadMsg
no_message = record { w_param = pos 0; l_param = pos 0; msg = []; data_list = none }

-- `<-tmsg.RetChan`: the first value that was sent; false stands for a wait that does not end.
abbrev pub received : List Bool → Bool
received [] = false
received (b ∷ rest) = b

-- The form of registergsHandler.
pub record RegisterForm : Type 0 where
  pub address : GoString
  pub port : GoString
  pub online : GoString
  pub note : GoString
  pub password : GoString
  pub version : GoString

-- The address of the form, or else the one that the request comes from.
abbrev pub address_of_parts : List GoString → Option GoString
address_of_parts (ip ∷ port ∷ []) = some ip
address_of_parts _ = none

abbrev pub register_address : GoString → GoString → Option GoString
register_address address remote_addr =
    if length address == 0 then address_of_parts (split 58 remote_addr) else some address

abbrev pub described : RegisterForm → GoString → ℤ → UserGameServer
described form address port = record {
  id = pos 0;
  address = address;
  port = port;
  note = form.note;
  online = if length form.online == 0 then pos 0 else atoi_value form.online;
  password = form.password;
  version = form.version;
  last_live_time = pos 0;
}

-- getFormValueInt and getFormValueString; the value is given without the spaces around it.
abbrev pub get_form_value_int : GoString → ℤ → ℤ
get_form_value_int v default =
    if length v == 0 then default else elim (atoi v) [ none ↦ default | some value ↦ value ]

-- BuyOlshopItemResult
pub record BuyOlshopItemResult : Type 0 where
  pub result : ℤ
  pub left : ℤ

-- The form of buyOlshopItemHandler.
pub record ShopForm : Type 0 where
  pub uid : GoString
  pub cost : GoString
  pub item_id : GoString
  pub name : GoString

module _ {Db : Type 0} (sql : Engine Db) (decode : GoString → Option UserGameServer)
    (encode : UserGameServer → Option GoString) where
  -- What the main thread does with the message, and what the handler receives.
  abbrev pub ask : MThreadEvent → ℤ → MThreadMsg → Main Db → Bool × (MThreadMsg × Main Db)
  ask event now m s =
      let (m', (sent, s')) = process_m_thread_msg sql decode event now m s in
      (received sent, (m', s'))

  -- `none`: nothing is written.
  pub remove_gs_addr_handler : ℤ → GoString → Main Db → Option Rsp × Main Db
  remove_gs_addr_handler now id s = elim (atoi id) [
    | none ↦ (none, s)
    | some gs_id ↦
        if int_eq gs_id (pos 0)
        then (none, s)
        else let (ret, (m, s')) =
            ask remove_gs_addr now (record no_message { w_param = gs_id }) s in
          (some (record { result = if ret then pos 0 else negsuc 0; msg = [] }), s')
  ]

  -- The answer to a request for an address.
  abbrev pub address_rsp : Bool → MThreadMsg → Rsp
  address_rsp ret m =
      if ret then record { result = pos 0; msg = m.msg ++ 58 ∷ itoa m.l_param } else record {
        result = negsuc 0;
        msg = codes "Invalid game server id or incorrect password.please check again.";
      }

  unfoldable pub get_gs_address_handler : ℤ → GoString → GoString → Main Db → Rsp × Main Db
  get_gs_address_handler now id password s = elim (atoi id) [
    | none ↦ (record { result = negsuc 0; msg = codes "Invalid id argument" }, s)
    | some gs_id ↦
        let (ret, (m, s')) =
          ask get_gs_addr now (record no_message { w_param = gs_id; msg = password }) s in
        (address_rsp ret m, s')
  ]

  -- The servers that are written, `none` if nothing is.
  pub get_gs_list_handler : ℤ → Main Db → Option (List UserGameServer) × Main Db
  get_gs_list_handler now s =
      if not s.lobby.list_enabled
      then (some [], s)
      else let (ret, (m, s')) = ask get_gs_list now no_message s in (m.data_list, s')

  -- The message that describes the server is posted.
  abbrev pub post_server : ℤ → Option GoString → Main Db → Option Rsp × Main Db
  post_server now none s = (none, s)
  post_server now (some text) s =
      let (ret, (m, s')) = ask register_gs now (record no_message { msg = text }) s in
      (
        some (
            if ret
            then record { result = pos 0; msg = itoa m.w_param }
            else record { result = negsuc 0; msg = codes "Failed to register gs" }),
        s',
      )

  unfoldable pub registergs_handler : ℤ → GoString → RegisterForm → Main Db → Option Rsp × Main Db
  registergs_handler now remote_addr form s = elim (register_address form.address remote_addr) [
    | none ↦ (some (record { result = negsuc 0; msg = codes "Invalid address arguments" }), s)
    | some address ↦
        if length form.port == 0
        then (some (record { result = negsuc 0; msg = codes "Invalid port arguments" }), s)
        else elim (atoi form.port) [
          | none ↦ (none, s)
          | some port ↦ post_server now (encode (described form address port)) s
        ]
  ]

  -- The first part of the address is one of g_ControlAddr.
  abbrev pub first_part : List GoString → GoString
  first_part [] = []
  first_part (part ∷ parts) = part

  abbrev pub is_accessible : List GoString → GoString → Bool
  is_accessible control_addr remote_addr =
      any (λ v. str_eq v (first_part (split 58 remote_addr))) control_addr

  -- The answer after the wait, which ends after half a second.
  abbrev pub rs_rsp : Bool → Bool → GoString → GoString → Rsp
  rs_rsp timeout ret good bad =
      if timeout
      then record { result = negsuc 1; msg = codes "Request timeout" }
      else if ret
      then record { result = pos 0; msg = good }
      else record { result = negsuc 2; msg = bad }

  abbrev pub registered : Bool → Bool × (MThreadMsg × Main Db) → Rsp × Main Db
  registered timeout (ret, (m, s)) =
      (rs_rsp timeout ret (codes "Register success") (codes "Register account failed"), s)

  abbrev pub modified : Bool → Bool × (MThreadMsg × Main Db) → Rsp × Main Db
  modified timeout (ret, (m, s)) =
      (rs_rsp timeout ret (codes "modify password") (codes "modify password failed"), s)

  -- `timeout` is whether the answer comes too late; the message is processed all the same.
  unfoldable pub rs_handler :
      ℤ → Bool → List GoString → GoString → GoString → GoString → GoString → Main Db → Rsp × Main Db
  rs_handler now timeout control_addr remote_addr action account password s =
      let m = record no_message { msg = account ++ 32 ∷ password } in
      if not (is_accessible control_addr remote_addr)
      then (record { result = negsuc 0; msg = codes "Access denied" }, s)
      else if str_eq action (codes "registeraccount")
      then registered timeout (ask ls_register_account now m s)
      else if str_eq action (codes "modifypassword")
      then modified timeout (ask ls_modify_password now m s)
      else (record { result = negsuc 0; msg = codes "Invalid action type" }, s)

-- The tests of buyOlshopItemHandler on its values.
abbrev pub is_order : ℤ → ℤ → ℤ → GoString → Bool
is_order uid cost item_id name =
    ltb_ℤ (pos 0) uid
    && (not (ltb_ℤ cost (pos 0))
        && (ltb_ℤ (pos 0) item_id && not (length name == 0 || ltb 19 (length name))))

module _ {Db : Type 0} (sql : Engine Db) where
  -- What is bought, and what is left of the donation; a refusal answers with its code.
  abbrev pub shop_result : (Bool × ℤ) × Db → BuyOlshopItemResult × Db
  shop_result ((true, left), db) = (record { result = pos 0; left = left }, db)
  shop_result ((false, code), db) = (record { result = code; left = pos 0 }, db)

  unfoldable pub buy_olshop_item_handler : ℤ → ShopForm → Db → BuyOlshopItemResult × Db
  buy_olshop_item_handler now form db =
      let uid = get_form_value_int form.uid (pos 0) in
      let cost = get_form_value_int form.cost (negsuc 0) in
      let item_id = get_form_value_int form.item_id (pos 0) in
      if is_order uid cost item_id form.name
      then shop_result (db_on_consume_donate sql (to_uint32 uid) form.name item_id cost now db)
      else (record { result = pos 1; left = pos 0 }, db)
