-- ===== src/Ranks/Tests.antt =====
-- A player's rank is updated, in a database in memory.
use bmservers.Prelude.{◌≡◌, refl, true, [], ◌∷◌, codes, str_eq}
use bmservers.Prelude.Int.{pos}
use bmservers.Sql.Rows.{Snapshot, RankRow}
use bmservers.Sql.Memory.{memory, memory-Laws}
use bmservers.Ranks.{db_is_user_rank_exists_v2, db_update_user_rank_info_v2}
use bmservers.Ranks.Rows.{IsRanked, db_update_user_rank_info_v2-IsRanked}

abbrev hero : RankRow
hero = record {
  uid = 1;
  name = codes "hero";
  job = pos 2;
  level = pos 10;
  expr = pos 5;
  power = pos 100;
}

abbrev before : Snapshot
before = record {
  accounts = [];
  donates = [];
  histories = [];
  consumes = [];
  gifts = [];
  ranks = hero ∷ [];
  admins = [];
  requests = [];
  onlines = [];
  web_users = [];
}

-- The level is new, the experience and the power are not sent.
abbrev update : RankRow
update = record hero { level = pos 11; expr = pos 0; power = pos 0 }

abbrev after : Snapshot
after = record before { ranks = (record hero { level = pos 11 }) ∷ [] }

updates : db_update_user_rank_info_v2 memory update before ≡ (true, after)
unfolding db_update_user_rank_info_v2 db_is_user_rank_exists_v2 str_eq
updates = refl

db_update_user_rank_info_v2-IsRanked_example : IsRanked update before.ranks after.ranks
db_update_user_rank_info_v2-IsRanked_example =
    db_update_user_rank_info_v2-IsRanked memory-Laws update before after refl (λ e. cc) updates
