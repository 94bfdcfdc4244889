-- ===== src/ServerManager/Rooms.antt =====
-- The room map of Src/Server/ServerManager.cpp under the methods that create, change and delete rooms.
use rtype_ci_cd.Common.{
  ℕ, suc, ◌+◌, ◌≤◌, ◌<◌, ◌≡◌, ◌≢◌, ◌∙◌, ◌++◌, ap, take, until_nul, ◌↔◌, subst, refl, ◌⊎◌, inl, inr,
  true, false, Option, none, some, List, [], ◌∷◌, Bool-cases, Option-cases, if◌then◌else◌, ◌==◌,
  arith,
}
use rtype_ci_cd.Common.Int.{ℤ, pos, eq_ℤ, ltb_ℤ, eq_ℤ_iff}
use rtype_ci_cd.Game.Types.{Game, GameStatus, new_game, new_player}
use rtype_ci_cd.Game.Players.{add_player, copy_username, get_host_id, set_status}
use rtype_ci_cd.ServerManager.{
  Room, ServerManager, find_room, insert_room, change_room, on_create_room, on_join_room, in_lobby,
  on_start_game,
}
use rtype_ci_cd.ServerManager.Shell.{delete_room}

find_room-insert_room :
    (id : ℤ) (r : Room) (rs : List Room)
    → find_room id (insert_room r rs) ≡ (if eq_ℤ r.id id then some r else find_room id rs)
unfolding find_room insert_room
find_room-insert_room id r [] = refl
find_room-insert_room id r (s ∷ rs) =
    ground
      (arith, find_room-insert_room id r rs, eq_ℤ_iff s.id r.id, eq_ℤ_iff s.id id, eq_ℤ_iff r.id id)

pub change_found : (Game → Game) → Option Room → Option Room
change_found f none = none
change_found f (some r) = some (record r { game = f r.game })

find_room-change_room :
    (id j : ℤ) (f : Game → Game) (rs : List Room)
    → find_room id (change_room j f rs)
      ≡ (if eq_ℤ j id then change_found f (find_room id rs) else find_room id rs)
unfolding find_room change_room change_found
find_room-change_room id j f [] = ground arith
find_room-change_room id j f (r ∷ rs) =
    ground
      (arith, find_room-change_room id j f rs, eq_ℤ_iff r.id j, eq_ℤ_iff r.id id, eq_ℤ_iff j id)

-- The keys are non-negative, ascend, and lie between `lo` and `hi`.
abbrev pub KeysIn : ℕ → List Room → ℕ → Type 0
KeysIn lo [] hi = lo ≤ hi
KeysIn lo (r ∷ rs) hi = (k : ℕ) × (r.id ≡ pos k) × (lo ≤ k) × KeysIn (suc k) rs hi

KeysIn-le : (lo : ℕ) (rs : List Room) (hi : ℕ) → KeysIn lo rs hi → lo ≤ hi
KeysIn-le lo [] hi h = h
KeysIn-le lo (r ∷ rs) hi (k, e, le, rest) = omega (arith, KeysIn-le (suc k) rs hi rest)

find_room_fresh :
    (lo : ℕ) (rs : List Room) (hi : ℕ) → KeysIn lo rs hi → find_room (pos hi) rs ≡ none
unfolding find_room
find_room_fresh lo [] hi h = refl
find_room_fresh lo (r ∷ rs) hi (k, e, le, rest) = ground (
  arith,
  KeysIn-le (suc k) rs hi rest,
  find_room_fresh (suc k) rs hi rest,
  eq_ℤ_iff r.id (pos hi),
)

pos_before :
    (a b : ℤ) (k hi : ℕ)
    → a ≡ pos k
    → b ≡ pos hi
    → k < hi
    → (eq_ℤ a b ≡ false) × (ltb_ℤ b a ≡ false)
unfolding eq_ℤ ltb_ℤ
pos_before a b k hi ea eb lt = rw (ea, eb) (ground arith, ground arith)

insert_room-KeysIn :
    (lo : ℕ) (rs : List Room) (hi : ℕ) (r : Room)
    → r.id ≡ pos hi
    → KeysIn lo rs hi
    → KeysIn lo (insert_room r rs) (suc hi)
unfolding insert_room
insert_room-KeysIn lo [] hi r e h = (hi, e, h, omega arith)
insert_room-KeysIn lo (s ∷ rs) hi r e (k, ek, le, rest) =
    let (differs, after) =
      pos_before s.id r.id k hi ek e (omega (arith, KeysIn-le (suc k) rs hi rest)) in
    rw (differs, after) (k, ek, le, insert_room-KeysIn (suc k) rs hi r e rest)

-- Where the ids in use ascend below the next id, a new room gets an id that no room has, is found under
-- it as a new match, in the lobby and with no players, and every other room is found as before; and the
-- ids in use ascend below the next id again.
pub on_create_room-find_room :
    (s : ServerManager) (address now : ℕ)
    → KeysIn 0 s.rooms s.next_room_id
    → let (s', id) = on_create_room address now s in
      (find_room id s.rooms ≡ none)
      × ((j : ℤ)
          → find_room j s'.rooms ≡ (
              if eq_ℤ id j
              then some (record {
                id = id;
                address = address;
                game = new_game (s.boss_entries address) now;
              })
              else find_room j s.rooms))
      × KeysIn 0 s'.rooms s'.next_room_id
unfolding on_create_room
on_create_room-find_room s address now h = (
  find_room_fresh 0 s.rooms s.next_room_id h,
  λ j. find_room-insert_room j _ s.rooms,
  subst (KeysIn 0 (on_create_room address now s).0.rooms)
      (let e : suc s.next_room_id ≡ s.next_room_id + 1 = omega arith in e)
      (insert_room-KeysIn 0 s.rooms s.next_room_id _ refl h),
)

in_lobby_iff : (st : GameStatus) → (in_lobby st ≡ true) ↔ (st ≡ GameStatus.lobby)
in_lobby_iff st = ground arith

-- The match after a player has joined: at the end of the roster stands a new player with the id and the name,
-- which is cut to the field of 32 characters, and all else is as it was.
abbrev pub with_player : Game → ℕ → List ℕ → Game
with_player g player username = record g {
  players =
      g.players ++ record (new_player player) { username = take 31 (until_nul username) } ∷ [];
}

-- A player joins a room that exists and is in the lobby, however many are in it: then that room has the
-- player at the end of its roster, with the defaults of a new player and the name up to its first zero and
-- 31 characters, and every other room is found as before. Where there is no such room, nothing at all
-- changes.
pub on_join_room-find_room :
    (id j : ℤ) (player : ℕ) (username : List ℕ) (s : ServerManager)
    → let (s', joined) = on_join_room id player username s in
      ((r : Room) × (find_room id s.rooms ≡ some r)
        × (r.game.status ≡ GameStatus.lobby)
        × (joined ≡ true)
        × (find_room j s'.rooms ≡ (
            if eq_ℤ id j
            then some (record r { game = with_player r.game player username })
            else find_room j s.rooms)))
      ⊎ (((r : Room) → find_room id s.rooms ≡ some r → r.game.status ≢ GameStatus.lobby)
          × (joined ≡ false)
          × (s' ≡ s))
unfolding on_join_room add_player copy_username change_found
on_join_room-find_room id j player username s = elim (Option-cases (find_room id s.rooms)) [
  | inl gone ↦ rw (gone, on_join_room) (inr ((λ q e st. ground (arith, e)), refl, refl))
  | inr (r, here) ↦ elim (Bool-cases (in_lobby r.game.status)) [
    | inl open_room ↦
        rw (here, on_join_room, open_room)
          (inl (r, refl, (in_lobby_iff r.game.status).0 open_room, refl, joins r here))
    | inr shut ↦
        rw (here, on_join_room, shut) (inr ((λ q e st. not_lobby r q shut e st), refl, refl))
  ]
]
  where
    joins :
        (r : Room)
        → find_room id s.rooms ≡ some r
        → find_room j (change_room id (λ g. add_player g player username) s.rooms) ≡ (
            if eq_ℤ id j
            then some (record r { game = with_player r.game player username })
            else find_room j s.rooms)
    joins r here = elim (Bool-cases (eq_ℤ id j)) [
      | inl e ↦
          let same = (eq_ℤ_iff id j).0 e in
          rw (find_room-change_room j id (λ g. add_player g player username) s.rooms, e)
            (ap (change_found (λ g. add_player g player username))
              (subst (λ i. find_room i s.rooms ≡ some r) same here))
      | inr ne ↦
          rw (find_room-change_room j id (λ g. add_player g player username) s.rooms, ne) refl
    ]

    not_lobby :
        (r q : Room)
        → in_lobby r.game.status ≡ false
        → some r ≡ some q
        → q.game.status ≡ GameStatus.lobby
        → ⊥
    not_lobby r q shut e st = ground arith

-- What a request to start does to the match of its room.
abbrev start_if_host : ℕ → Game → Game
start_if_host player g = if player == get_host_id g then set_status g GameStatus.playing else g

-- A room that is being played after a request to start was played before, or is the room of the request,
-- and the request came from its host.
pub on_start_game_host :
    (id j : ℤ) (player : ℕ) (s : ServerManager) (r' : Room)
    → find_room j (on_start_game id player s).rooms ≡ some r'
    → r'.game.status ≡ GameStatus.playing
    → (r : Room) × (find_room j s.rooms ≡ some r)
      × ((r.game.status ≡ GameStatus.playing) ⊎ ((j ≡ id) × (get_host_id r.game ≡ player)))
unfolding on_start_game change_found set_status
on_start_game_host id j player s r' found playing = elim (Option-cases (find_room j s.rooms)) [
  | inl gone ↦ absurd (ground (arith, law, gone))
  | inr (r, here) ↦ (r, here, ground (arith, law, here, eq_ℤ_iff id j))
]
  where
    law : find_room j (change_room id (start_if_host player) s.rooms) ≡ (
        if eq_ℤ id j
        then change_found (start_if_host player) (find_room j s.rooms)
        else find_room j s.rooms)
    law = find_room-change_room j id (start_if_host player) s.rooms

delete_room_lem :
    (id : ℤ) (s : ServerManager) (r : Room)
    → find_room id s.rooms ≡ some r
    → (delete_room id s).boss_entries r.address ≡ r.game.boss
unfolding delete_room
delete_room_lem id s r found = rw (found, delete_room) (ground arith)

-- A match that gets the address of a deleted one is found under its new id, in the lobby and with no players,
-- but with the boss state that the deleted one had.
pub create_after_delete :
    (id : ℤ) (now : ℕ) (s : ServerManager) (r : Room)
    → find_room id s.rooms ≡ some r
    → let (s', new_id) = on_create_room r.address now (delete_room id s) in
      (r' : Room) × (find_room new_id s'.rooms ≡ some r')
      × (r'.game.boss ≡ r.game.boss)
      × (r'.game.status ≡ GameStatus.lobby)
      × (r'.game.players ≡ [])
unfolding on_create_room new_game
create_after_delete id now s r found =
    let deleted = delete_room id s in
    (
      record {
        id = pos deleted.next_room_id;
        address = r.address;
        game = new_game (deleted.boss_entries r.address) now;
      },
      find_room-insert_room (pos deleted.next_room_id) _ deleted.rooms
          ∙ (rw ((eq_ℤ_iff _ _).1 refl) refl),
      delete_room_lem id s r found,
      refl,
      refl,
    )
