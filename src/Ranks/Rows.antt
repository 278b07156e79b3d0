-- ===== src/Ranks/Rows.antt =====
-- dbUpdateUserRankInfoV2 of bmloginsvrapp/sqlv2.go: what it makes of the rows of a name.
use mathlib.Core.List.{append-nil}
use bmservers.Prelude.{
  ◌≡◌, ◌≢◌, ◌⊎◌, inl, inr, refl, ap, ◌∙◌, sym, true, false, none, List, [], ◌∷◌, ◌++◌, map, arith,
  fun_ext, zero, suc, GoString, keep, length, str_eq, str_eq_iff, Bool-cases,
}
use bmservers.Prelude.Int.{ℤ, pos, negsuc}
use bmservers.Sql.Rows.{Snapshot, RankRow}
use bmservers.Sql.Engine.{Engine}
use bmservers.Sql.Laws.{Laws, IsPlain, changed}
use bmservers.Sql.Filters.{
  keep-append_one, keep-changed, changed-keep_disjoint, changed-keep_all, map-same, no_rows,
}
use bmservers.Ranks.{
  UserRankInfo, if_set, set_rank, nothing_set, rank_is, rank_is_v2, db_is_user_rank_exists_v2,
  db_update_user_rank_info_v2,
}

-- The rows of a name.
abbrev pub rows_of : GoString → List RankRow → List RankRow
rows_of name rows = keep (λ r. str_eq r.name name) rows

-- A number that is sent replaces the old one; 0 stands for one that is not sent.
abbrev pub sent_or : ℤ → ℤ → ℤ
sent_or (pos zero) old = old
sent_or (pos (suc n)) old = pos (suc n)
sent_or (negsuc n) old = negsuc n

-- The row of a name with what is sent in it.
abbrev pub with_sent : UserRankInfo → RankRow → RankRow
with_sent info r = record {
  uid = r.uid;
  name = r.name;
  job = r.job;
  level = sent_or info.level r.level;
  expr = sent_or info.expr r.expr;
  power = sent_or info.power r.power;
}

if_set-sent_or : (new old : ℤ) → if_set new old ≡ sent_or new old
if_set-sent_or (pos zero) old = ground arith
if_set-sent_or (pos (suc n)) old = ground arith
if_set-sent_or (negsuc n) old = ground arith

set_rank-with_sent : (info : UserRankInfo) (r : RankRow) → set_rank info r ≡ with_sent info r
set_rank-with_sent info r =
    rw
      (
        if_set-sent_or info.level r.level,
        if_set-sent_or info.expr r.expr,
        if_set-sent_or info.power r.power,
      )
      refl

-- A name without rows gets the row given; one with rows gets in each the fields that are not 0.
-- The rows of every other name stay.
abbrev pub IsRanked : UserRankInfo → List RankRow → List RankRow → Type 0
IsRanked info before after =
    ((name : GoString) → name ≢ info.name → rows_of name after ≡ rows_of name before)
    × (((rows_of info.name before ≡ []) × (rows_of info.name after ≡ info ∷ []))
        ⊎ ((rows_of info.name before ≢ [])
            × (rows_of info.name after ≡ map (with_sent info) (rows_of info.name before))))

set_rank-nothing :
    (info : UserRankInfo) (r : RankRow) → nothing_set info ≡ true → set_rank info r ≡ r
set_rank-nothing info r h = ground arith

inserted-IsRanked :
    (info : UserRankInfo) (rows : List RankRow)
    → rows_of info.name rows ≡ []
    → IsRanked info rows (rows ++ info ∷ [])
inserted-IsRanked info rows gone = (
  (λ name other.
      rw (keep-append_one (λ r. str_eq r.name name) rows info)
        (elim (Bool-cases (str_eq info.name name)) [
          | inl e ↦ absurd (other (sym ((str_eq_iff info.name name).0 e)))
          | inr e ↦ rw e (append-nil _)
        ])),
  inl (
    gone,
    rw
        (
          keep-append_one (λ r. str_eq r.name info.name) rows info,
          (str_eq_iff info.name info.name).1 refl,
          gone,
        )
        refl,
  ),
)

apart : (r : RankRow) (a b : GoString) → a ≢ b → str_eq r.name a ≡ true → str_eq r.name b ≡ false
apart r a b other e = ground (arith, (str_eq_iff r.name a).0 e, (str_eq_iff r.name b).0)

updated-IsRanked :
    (info : UserRankInfo) (rows : List RankRow)
    → rows_of info.name rows ≢ []
    → IsRanked info rows (changed (set_rank info) (λ r. str_eq r.name info.name) rows)
updated-IsRanked info rows there = (
  (λ name other.
      keep-changed (set_rank info) (λ r. str_eq r.name info.name) (λ r. str_eq r.name name) rows
        (λ r. refl)
      ∙ changed-keep_disjoint (set_rank info) (λ r. str_eq r.name info.name)
          (λ r. str_eq r.name name) rows (λ r e. apart r name info.name other e)),
  inr (
    there,
    keep-changed (set_rank info) (λ r. str_eq r.name info.name) (λ r. str_eq r.name info.name) rows
          (λ r. refl)
        ∙ changed-keep_all (set_rank info) (λ r. str_eq r.name info.name) rows
        ∙ ap (λ f. map f (rows_of info.name rows)) (fun_ext (set_rank-with_sent info)),
  ),
)

module _ {Db : Type 0} {sql : Engine Db} {view : Db → Snapshot} (laws : Laws sql view) where
  -- If dbUpdateUserRankInfoV2 returns true, a name without rows has got the row given, a name with
  -- rows has got the level, the experience and the power where they are not 0, and the rows of the
  -- other names stay. It is assumed that the name has no quote, and that the rows can be counted.
  pub db_update_user_rank_info_v2-IsRanked :
      (info : UserRankInfo) (db db' : Db)
      → IsPlain info.name
      → sql.ranks.count (rank_is_v2 info.name) db ≢ none
      → db_update_user_rank_info_v2 sql info db ≡ (true, db')
      → IsRanked info (view db).ranks (view db').ranks
  unfolding db_update_user_rank_info_v2 db_is_user_rank_exists_v2
  db_update_user_rank_info_v2-IsRanked info db db' plain reads h =
      let counted = laws.ranks.count_law (rank_is_v2 info.name) db tt in
      elim (Bool-cases (db_is_user_rank_exists_v2 sql info.name db)) [
        | inr new ↦
            let inserted = laws.rank_insert [] info db tt in
            let after : (view db').ranks ≡ (view db).ranks ++ info ∷ [] = ground arith in
            rw after (inserted-IsRanked info (view db).ranks (no_rows _ (ground arith)))
        | inl old ↦
            let there : rows_of info.name (view db).ranks ≢ [] = λ e. ground (arith, ap length e) in
            elim (Bool-cases (nothing_set info)) [
              | inl nothing ↦
                  let same : db ≡ db' = ground arith in
                  rw (← same) (
                    (λ name other. refl),
                    inr (
                      there,
                      sym (
                          map-same (with_sent info) _ (λ r.
                            sym (set_rank-with_sent info r) ∙ set_rank-nothing info r nothing)),
                    ),
                  )
              | inr something ↦
                  let updated =
                    laws.ranks.update_law (set_rank info) (rank_is info.name) db (plain, tt) in
                  let after : (view db').ranks
                      ≡ changed (set_rank info) (λ r. str_eq r.name info.name) (view db).ranks =
                    ground arith in
                  rw after (updated-IsRanked info (view db).ranks there)
            ]
      ]
