-- ===== src/Lobby/Servers.antt =====
-- The map of user game servers in bmloginsvrapp/main_thread_process.go: its keys and its numbers.
use mathlib.Core.List.{map-append}
use bmservers.Prelude.{
  ◌≡◌, inl, inr, refl, ap, false, ◌^◌, ◌-◌, none, some, List, [], ◌∷◌, arith, GoString, map, All,
  All-append, Bool-cases, Option-cases,
}
use bmservers.Prelude.Int.{ℤ, pos, ◌+ℤ◌, ◌≤ℤ◌, ◌<ℤ◌, to_int64, to_int64-eq, int_laws}
use bmservers.Prelude.Assoc.{int_eq, int_eq_iff, int_key, str_key, lookup, insert, erase}
use bmservers.Prelude.Entries.{
  mem, IsDistinct, IsDistinct-append, insert-absent, lookup-absent, map-insert, All-insert,
  All-erase, IsDistinct-erase,
}
use bmservers.Lobby.{
  UserGameServer, Lobby, server_key, add_or_update, add_user_game_server, remove_user_game_server,
  key_of_id, is_offline, erase_offline, check_offline_user_game_server,
}

abbrev pub Entries : Type 0
Entries = List (GoString × UserGameServer)

abbrev pub ids : Entries → List ℤ
ids m = map (λ e. e.1.id) m

abbrev pub keys : Entries → List GoString
keys m = map (λ e. e.0) m

-- An entry stands under its server's address and port, and its id was given out.
abbrev pub IsEntry : ℤ → GoString × UserGameServer → Type 0
IsEntry seed e = (e.0 ≡ server_key e.1) × ((pos 1 ≤ℤ e.1.id) × (e.1.id ≤ℤ seed))

-- No two servers have the same address and port, or the same id.
pub record IsMap (m : Entries) (seed : ℤ) : Type 0 where
  pub entries : All (IsEntry seed) m
  pub one_key : IsDistinct (keys m)
  pub one_id : IsDistinct (ids m)

pub record IsLobby (l : Lobby) : Type 0 where
  pub servers : IsMap l.servers l.seed
  pub positive : pos 0 ≤ℤ l.seed

-- An id that was not given out yet is no server's.
fresh_id : (id seed : ℤ) (m : Entries) → seed <ℤ id → All (IsEntry seed) m → mem id (ids m) ≡ false
fresh_id id seed [] h all = refl
fresh_id id seed ((k, ug) ∷ m) h all = elim (Bool-cases (int_eq ug.id id)) [
  | inl same ↦
      let mine : ug.id ≡ id = (int_eq_iff ug.id id).0 same in
      let bound : id ≤ℤ seed = rw mine at all.0.1.1 in absurd (omega (arith, bound, h))
  | inr other ↦ rw other (fresh_id id seed m h all.1)
]

later_seed : (seed id : ℤ) (m : Entries) → seed ≤ℤ id → All (IsEntry seed) m → All (IsEntry id) m
later_seed seed id [] h all = tt
later_seed seed id ((k, ug) ∷ m) h all =
    ((all.0.0, (all.0.1.0, omega (arith, all.0.1.1))), later_seed seed id m h all.1)

append-IsMap :
    (k : GoString) (ug : UserGameServer) (m : Entries) (seed : ℤ)
    → IsMap m seed
    → lookup k m ≡ none
    → k ≡ server_key ug
    → seed <ℤ ug.id
    → pos 1 ≤ℤ ug.id
    → IsMap (insert k ug m) ug.id
append-IsMap k ug m seed h absent key fresh one = rw (insert-absent k ug m absent) (record {
  entries =
      All-append (IsEntry ug.id) m ((k, ug) ∷ [])
        (later_seed seed ug.id m (omega (arith, fresh)) h.entries) ((key, (one, omega arith)), tt);
  one_key =
      rw (map-append (λ e. e.0) m ((k, ug) ∷ []))
        (IsDistinct-append (keys m) k h.one_key (lookup-absent k m absent));
  one_id =
      rw (map-append (λ e. e.1.id) m ((k, ug) ∷ []))
        (IsDistinct-append (ids m) ug.id h.one_id (fresh_id ug.id seed m fresh h.entries));
})

-- An entry is overwritten by one with the same id, address and port.
overwrite-IsMap :
    (k : GoString) (old ug : UserGameServer) (m : Entries) (seed : ℤ)
    → IsMap m seed
    → lookup k m ≡ some old
    → ug.id ≡ old.id
    → server_key ug ≡ server_key old
    → IsMap (insert k ug m) seed
overwrite-IsMap k old ug m seed h found same_id same_key = record {
  entries =
      All-insert (IsEntry seed) k ug old m found (λ was. rw (same_id, same_key) was) h.entries;
  one_key = rw (map-insert (λ e. e.0) k ug old m found refl) h.one_key;
  one_id = rw (map-insert (λ e. e.1.id) k ug old m found same_id) h.one_id;
}

erase-IsMap : (k : GoString) (m : Entries) (seed : ℤ) → IsMap m seed → IsMap (erase k m) seed
erase-IsMap k m seed h = record {
  entries = All-erase (IsEntry seed) k m h.entries;
  one_key = IsDistinct-erase (λ e. e.0) k m h.one_key;
  one_id = IsDistinct-erase (λ e. e.1.id) k m h.one_id;
}

new_entry :
    (now : ℤ) (gs : UserGameServer) (l : Lobby)
    → IsLobby l
    → l.seed <ℤ pos (2 ^ 63 - 1)
    → lookup (server_key gs) l.servers ≡ none
    → IsLobby (add_or_update now gs l none).1
new_entry now gs l h room absent =
    let exact : to_int64 (l.seed +ℤ pos 1) ≡ l.seed +ℤ pos 1 =
      to_int64-eq (l.seed +ℤ pos 1) (omega (int_laws, room)) (omega (int_laws, h.positive)) in
    rw exact (record {
      servers =
          append-IsMap (server_key gs) (record gs { last_live_time = now; id = l.seed +ℤ pos 1 })
            l.servers l.seed h.servers absent refl (omega int_laws) (omega (int_laws, h.positive));
      positive = omega (int_laws, h.positive);
    })

pub add_user_game_server-IsLobby :
    (now : ℤ) (gs : UserGameServer) (l : Lobby)
    → IsLobby l
    → l.seed <ℤ pos (2 ^ 63 - 1)
    → IsLobby (add_user_game_server now gs l).1
unfolding add_user_game_server
add_user_game_server-IsLobby now gs l h room =
    let add = add_or_update now gs l in
    elim (Option-cases (lookup (server_key gs) l.servers)) [
      | inl absent ↦ rw (ap (λ o. (add o).1) absent) (new_entry now gs l h room absent)
      | inr (rd, found) ↦ rw (ap (λ o. (add o).1) found) (record {
        servers =
            overwrite-IsMap (server_key gs) rd
              (record rd { last_live_time = now; note = gs.note; online = gs.online }) l.servers
              l.seed h.servers found refl refl;
        positive = h.positive;
      })
    ]

pub remove_user_game_server-IsLobby :
    (id : ℤ) (l : Lobby) → IsLobby l → IsLobby (remove_user_game_server id l)
unfolding remove_user_game_server
remove_user_game_server-IsLobby id l h = elim (Option-cases (key_of_id id l.servers)) [
  | inl absent ↦ rw absent h
  | inr (k, found) ↦
      rw found
        (record { servers = erase-IsMap k l.servers l.seed h.servers; positive = h.positive })
]

erase_offline-IsMap :
    (now seed : ℤ) (visited m : Entries) → IsMap m seed → IsMap (erase_offline now visited m) seed
erase_offline-IsMap now seed [] m h = h
erase_offline-IsMap now seed ((k, ug) ∷ rest) m h = elim (Bool-cases (is_offline now ug)) [
  | inl gone ↦ rw gone (erase_offline-IsMap now seed rest (erase k m) (erase-IsMap k m seed h))
  | inr here ↦ rw here (erase_offline-IsMap now seed rest m h)
]

pub check_offline_user_game_server-IsLobby :
    (now : ℤ) (l : Lobby) → IsLobby l → IsLobby (check_offline_user_game_server now l)
unfolding check_offline_user_game_server
check_offline_user_game_server-IsLobby now l h = record {
  servers = erase_offline-IsMap now l.seed l.servers l.servers h.servers;
  positive = h.positive;
}
