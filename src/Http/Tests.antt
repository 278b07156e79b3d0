-- ===== src/Http/Tests.antt =====
-- A purchase over HTTP, and an administrator who appoints another one.
use bmservers.Prelude.{
  ◌≡◌, ◌≢◌, refl, true, false, Option, none, some, [], ◌∷◌, GoString, codes, arith, str_eq, ap,
}
use bmservers.Prelude.Int.{pos, to_int64, to_uint64, to_uint32, ◌+ℤ◌, ◌-ℤ◌}
use bmservers.Prelude.Assoc.{lookup, str_key}
use bmservers.Prelude.Decimal.{atoi}
use bmservers.Sql.Rows.{Snapshot, AccountRow, DonateRow}
use bmservers.Sql.Memory.{memory, memory-Laws}
use bmservers.Account.{db_get_user_account_info}
use bmservers.Admins.{db_insert_admin_account, db_admin_account_exists}
use bmservers.Donate.{
  db_on_consume_donate, consume_from, db_get_user_donate_info, db_get_user_donate_consume_sum,
  db_insert_user_donate_consume,
}
use bmservers.Donate.Consume.{IsPurchase, purchase}
use bmservers.Lobby.{UserGameServer, Main}
use bmservers.Http.{ShopForm, buy_olshop_item_handler}
use bmservers.Http.Shop.{IsOrder, uid_of, cost_of, item_of, buy_olshop_item_handler-IsPurchase}
use bmservers.Http.Admin.{
  AdminHandlerSessionInfo, Sessions, AdminRequest, admin_handler, check_admin_handler_session,
}
use bmservers.Http.Access.{IsAuthorised, db_after, admin_handler-IsAuthorised}

abbrev chief : AccountRow
chief = record {
  uid = 1;
  account = codes "chief";
  password = codes "secret";
  name0 = [];
  name1 = [];
  name2 = [];
  online = 0;
  mail = [];
}

abbrev donation : DonateRow
donation = record { uid = 1; donate = pos 100; lastdonatetime = pos 5; expiretime = pos 0 }

abbrev db : Snapshot
db = record {
  accounts = chief ∷ [];
  donates = donation ∷ [];
  histories = [];
  consumes = [];
  gifts = [];
  ranks = [];
  admins = [];
  requests = [];
  onlines = [];
  web_users = [];
}

abbrev shop_form : ShopForm
shop_form = record { uid = codes "1"; cost = codes "30"; item_id = codes "5"; name = codes "hero" }

abbrev bought : Snapshot
bought = record db { consumes = purchase 1 (codes "hero") (pos 5) (pos 30) (pos 99) ∷ [] }

buys :
    buy_olshop_item_handler memory (pos 99) shop_form db
    ≡ (record { result = pos 0; left = pos 70 }, bought)
unfolding buy_olshop_item_handler atoi to_uint32 db_on_consume_donate consume_from
    db_get_user_donate_info db_get_user_donate_consume_sum db_insert_user_donate_consume to_int64
    to_uint64 ◌+ℤ◌ ◌-ℤ◌
buys = refl

buy_olshop_item_handler-IsPurchase_example :
    IsOrder (uid_of shop_form) (cost_of shop_form) (item_of shop_form) shop_form.name
    × IsPurchase
        (to_uint32 (uid_of shop_form))
        (purchase
          (to_uint32 (uid_of shop_form))
          shop_form.name
          (item_of shop_form)
          (cost_of shop_form)
          (pos 99))
        (pos 70)
        db
        bought
buy_olshop_item_handler-IsPurchase_example =
    buy_olshop_item_handler-IsPurchase memory-Laws (pos 99) shop_form (pos 70) db bought refl
      (omega arith) (omega arith) (λ e. cc) buys

abbrev session : AdminHandlerSessionInfo
session = record {
  guid = codes "g1";
  ip = codes "1.2.3.4";
  account = codes "root";
  level = pos 2;
  verify_time = pos 1000;
}

abbrev no_sessions : Sessions
no_sessions = record { table = []; operate_times = 0 }

abbrev sessions : Sessions
sessions = record { table = (codes "g1", session) ∷ []; operate_times = 1 }

abbrev request : AdminRequest
request = record {
  action = codes "add_admin";
  cookie = some (codes "g1");
  account = codes "chief";
  password = [];
  level = codes "1";
  enable = [];
  remote_addr = codes "1.2.3.4:5555";
}

abbrev main : Main Snapshot
main = record { lobby = record { servers = []; seed = pos 0; list_enabled = true }; db = db }

abbrev decode : GoString → Option UserGameServer
decode text = none

abbrev encode : UserGameServer → Option GoString
encode server = none

appoints :
    (db_after memory decode encode
      (admin_handler memory decode encode (pos 1500) false [] request sessions main)).admins
    ≡ (record { account = codes "chief"; level = pos 1 }) ∷ []
unfolding admin_handler check_admin_handler_session lookup str_eq atoi to_int64 ◌-ℤ◌
    db_insert_admin_account db_admin_account_exists db_get_user_account_info
appoints = refl

admin_handler-IsAuthorised_example : IsAuthorised (pos 1500) request sessions
admin_handler-IsAuthorised_example =
    admin_handler-IsAuthorised memory decode encode (pos 1500) false [] request sessions main
      (λ e. absurd (changed e))
  where
    changed :
        db_after memory decode encode
          (admin_handler memory decode encode (pos 1500) false [] request sessions main)
        ≢ db
    changed e = cc (appoints, ap (λ d. d.admins) e)
