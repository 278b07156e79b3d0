-- ===== src/Lobby/Offline.antt =====
-- Servers that no longer report: CheckOfflineUserGameServer of
-- bmloginsvrapp/main_thread_process.go.
use mathlib.Core.List.{append_assoc, map-append}
use bmservers.Prelude.{
  ◌≡◌, inl, inr, refl, sym, ap, ◌∙◌, false, not, ◌^◌, ◌-◌, Option, none, some, List, [], ◌∷◌, ◌++◌,
  arith, GoString, keep, All, Bool-cases,
}
use bmservers.Prelude.Int.{ℤ, pos, ◌+ℤ◌, ◌-ℤ◌, ◌≤ℤ◌, ◌<ℤ◌, ltb_ℤ, to_int64, to_int64-eq, int_laws}
use bmservers.Prelude.Assoc.{str_key, lookup, lookup-insert_self}
use bmservers.Prelude.Entries.{IsDistinct, IsDistinct-middle, erase-middle, lookup-keep}
use bmservers.Lobby.{
  UserGameServer, Lobby, server_key, add_or_update, add_user_game_server, is_offline, erase_offline,
  check_offline_user_game_server,
}
use bmservers.Lobby.Servers.{
  Entries, keys, IsLobby, add_user_game_server-IsLobby, check_offline_user_game_server-IsLobby,
}

-- The servers whose last report is 90 seconds old at most.
abbrev pub live : ℤ → Entries → Entries
live now m = keep (λ e. not (ltb_ℤ (pos 90) (to_int64 (now -ℤ e.1.last_live_time)))) m

-- The loop goes over `visited`; what it has kept before stands in `seen`.
erase_offline-live :
    (now : ℤ) (seen visited : Entries)
    → IsDistinct (keys (seen ++ visited))
    → erase_offline now visited (seen ++ visited) ≡ seen ++ live now visited
erase_offline-live now seen [] h = refl
erase_offline-live now seen ((k, ug) ∷ rest) h =
    let apart : IsDistinct (keys seen ++ k ∷ keys rest) =
      rw (← map-append (λ e. e.0) seen ((k, ug) ∷ rest)) h in
    let (before, behind, others) = IsDistinct-middle (keys seen) k (keys rest) apart in
    elim (Bool-cases (is_offline now ug)) [
      | inl gone ↦
          let distinct : IsDistinct (keys (seen ++ rest)) =
            rw (map-append (λ e. e.0) seen rest) others in
          rw (gone, erase-middle k ug seen rest before behind)
            (erase_offline-live now seen rest distinct)
      | inr here ↦
          let moved = append_assoc seen ((k, ug) ∷ []) rest in
          let distinct : IsDistinct (keys ((seen ++ (k, ug) ∷ []) ++ rest)) = rw moved h in
          let later = erase_offline-live now (seen ++ (k, ug) ∷ []) rest distinct in
          rw here (
            ap (erase_offline now rest) (sym moved)
            ∙ later
            ∙ append_assoc seen ((k, ug) ∷ []) (live now rest))
    ]

-- In a lobby as ProcessMThreadMsg keeps it, CheckOfflineUserGameServer removes the servers whose
-- last report is more than 90 seconds old, and keeps the others in their order.
pub check_offline_user_game_server-live :
    (now : ℤ) (l : Lobby)
    → IsLobby l
    → check_offline_user_game_server now l ≡ record l { servers = live now l.servers }
unfolding check_offline_user_game_server
check_offline_user_game_server-live now l h =
    ap (λ m. record l { servers = m }) (erase_offline-live now [] l.servers h.servers.one_key)

-- UpdateMThreadMsg at one time after the other.
abbrev pub checked : List ℤ → Lobby → Lobby
checked [] l = l
checked (now ∷ times) l = checked times (check_offline_user_game_server now l)

-- A time within 90 seconds after another.
abbrev pub IsSoon : ℤ → ℤ → Type 0
IsSoon last now = (last ≤ℤ now) × (now ≤ℤ last +ℤ pos 90)

not_over : (d : ℤ) → d ≤ℤ pos 90 → ltb_ℤ (pos 90) d ≡ false
not_over d h = ground arith

soon_online :
    (now : ℤ) (ug : UserGameServer) → IsSoon ug.last_live_time now → is_offline now ug ≡ false
soon_online now ug soon =
    let exact : to_int64 (now -ℤ ug.last_live_time) ≡ now -ℤ ug.last_live_time =
      to_int64-eq (now -ℤ ug.last_live_time) (omega (int_laws, soon.0, soon.1))
        (omega (int_laws, soon.0, soon.1)) in
    rw exact (not_over (now -ℤ ug.last_live_time) (omega (int_laws, soon.1)))

pub stays :
    (key : GoString) (ug : UserGameServer) (times : List ℤ) (l : Lobby)
    → IsLobby l
    → lookup key l.servers ≡ some ug
    → All (IsSoon ug.last_live_time) times
    → lookup key (checked times l).servers ≡ some ug
stays key ug [] l h found soon = found
stays key ug (now ∷ times) l h found soon =
    let kept = check_offline_user_game_server-live now l h in
    let online = soon_online now ug soon.0 in
    let still : lookup key (check_offline_user_game_server now l).servers ≡ some ug =
      rw kept (
        lookup-keep (λ e. not (is_offline now e.1)) key ug l.servers found (λ j. rw online refl)) in
    stays key ug times (check_offline_user_game_server now l)
      (check_offline_user_game_server-IsLobby now l h) still soon.1

reported_by :
    (now : ℤ) (gs : UserGameServer) (l : Lobby) (o : Option UserGameServer)
    → let r = add_or_update now gs l o in
      (ug : UserGameServer) × (lookup (server_key gs) r.1.servers ≡ some ug)
      × (ug.id ≡ r.0)
      × (ug.last_live_time ≡ now)
reported_by now gs l none =
    let rd = record gs { last_live_time = now; id = to_int64 (l.seed +ℤ pos 1) } in
    (rd, lookup-insert_self (server_key gs) rd l.servers, refl, refl)
reported_by now gs l (some old) =
    let rd = record old { last_live_time = now; note = gs.note; online = gs.online } in
    (rd, lookup-insert_self (server_key gs) rd l.servers, refl, refl)

-- What is known of a server after it has reported.
reported :
    (now : ℤ) (gs : UserGameServer) (l : Lobby)
    → (ug : UserGameServer) × (lookup (server_key gs) (add_user_game_server now gs l).1.servers
        ≡ some ug)
      × (ug.id ≡ (add_user_game_server now gs l).0)
      × (ug.last_live_time ≡ now)
unfolding add_user_game_server
reported now gs l = reported_by now gs l (lookup (server_key gs) l.servers)

-- In a lobby as ProcessMThreadMsg keeps it, whose counter of ids is below 2 ^ 63 - 1: a server
-- that has reported to it is in it, under its address and port and with the id that
-- AddUserGameServer returns, after any number of calls of UpdateMThreadMsg in the next 90 seconds.
pub add_user_game_server-stays :
    (now : ℤ) (gs : UserGameServer) (l : Lobby) (times : List ℤ)
    → IsLobby l
    → l.seed <ℤ pos (2 ^ 63 - 1)
    → All (IsSoon now) times
    → (ug : UserGameServer) × (lookup
          (server_key gs)
          (checked times (add_user_game_server now gs l).1).servers
        ≡ some ug)
      × (ug.id ≡ (add_user_game_server now gs l).0)
add_user_game_server-stays now gs l times h room soon =
    let (ug, found, its_id, its_time) = reported now gs l in
    (
      ug,
      stays (server_key gs) ug times (add_user_game_server now gs l).1
          (add_user_game_server-IsLobby now gs l h room) found (rw its_time soon),
      its_id,
    )
