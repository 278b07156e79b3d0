-- ===== src/Donate/Reads.antt =====
-- What the queries on userdonate read.
use bmservers.Prelude.{Gives, ℕ, ◌≡◌, Option, none, some, List, arith, ◌==◌, keep}
use bmservers.Sql.Rows.{Snapshot, DonateRow}
use bmservers.Sql.Engine.{Engine}
use bmservers.Sql.Laws.{Laws, IsFirst, IsRow}
use bmservers.Donate.{UserDonateInfo, scan_info, fetched, donate_of, db_get_user_donate_info}

-- What Scan reads is one of the rows asked for.
fetched-IsRow :
    (uid : ℕ) (rows : List DonateRow) (o : Option (Option DonateRow)) (info : UserDonateInfo)
    → Gives (IsFirst rows) o
    → fetched uid o ≡ some info
    → (r : DonateRow) × (info ≡ scan_info uid r) × IsRow r rows
fetched-IsRow uid rows none info g h = cc
fetched-IsRow uid rows (some none) info g h = cc
fetched-IsRow uid rows (some (some r)) info g h = (r, ground arith, g)

pub info-IsRow :
    {Db : Type 0} {sql : Engine Db} {view : Db → Snapshot} (laws : Laws sql view) (uid : ℕ)
    (db : Db) (info : UserDonateInfo)
    → db_get_user_donate_info sql uid db ≡ some info
    → (r : DonateRow) × (info ≡ scan_info uid r)
      × IsRow r (keep (λ r. r.uid == uid) (view db).donates)
unfolding db_get_user_donate_info
info-IsRow laws uid db info e =
    fetched-IsRow uid _ _ info (laws.donates.first_law (donate_of uid) db tt) e
