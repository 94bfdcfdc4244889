-- ===== src/ServerManager/Inputs.antt =====
-- The inputs that `ServerManager::onMessageReceived` of Src/Server/ServerManager.cpp passes to the match of
-- their player.
use rtype_ci_cd.Common.{
  ℕ, ◌≡◌, refl, sym, ap, ◌∙◌, none, some, Option, Option-cases, List, [], ◌∷◌, inl, inr, arith,
}
use mathlib.Core.List.{append-nil}
use rtype_ci_cd.Common.Machine.{Machine}
use rtype_ci_cd.Network.{SockAddr, Datagram}
use rtype_ci_cd.Protocol.Udp.Messages.{PlayerInputPacket, player_input, bytes_of, read_player_input}
use rtype_ci_cd.Protocol.Udp.Roundtrip.{Fits, read_player_input-bytes_of}
use rtype_ci_cd.Game.Types.{Player, Game}
use rtype_ci_cd.Game.Players.{find_player, get_player, set_addr, update_player_udp_addr}
use rtype_ci_cd.Game.Shots.{handle_player_input}
use rtype_ci_cd.Game.Input.{
  find_player-id, steer, find_player-update_player, handle_player_input-find_player,
}
use rtype_ci_cd.ServerManager.{
  Room, ServerManager, in_room_of, on_player_input, on_message_received,
}

-- The player in the first room that has it.
abbrev pub player_in : ℕ → List Room → Option Player
player_in id [] = none
player_in id (r ∷ rs) = elim (find_player id r.game.players) [
  | none ↦ player_in id rs
  | some q ↦ some q
]

pub player_in-id : (id : ℕ) (rs : List Room) (q : Player) → player_in id rs ≡ some q → q.id ≡ id
player_in-id id [] q h = ground (arith, h)
player_in-id id (r ∷ rs) q h = elim (Option-cases (find_player id r.game.players)) [
  | inl gone ↦ player_in-id id rs q (ground (arith, h, gone))
  | inr (p, found) ↦ ground (arith, h, found, find_player-id r.game.players id p found)
]

in_room_of-player_in :
    (id : ℕ) (f : Game → Game × List Datagram) (q q' : Player) (rs : List Room)
    → ((g : Game) → find_player id g.players ≡ some q → find_player id (f g).0.players ≡ some q')
    → player_in id rs ≡ some q
    → player_in id (in_room_of id f rs).0 ≡ some q'
unfolding in_room_of get_player
in_room_of-player_in id f q q' [] does here = ground (arith, here)
in_room_of-player_in id f q q' (r ∷ rs) does here =
    elim (Option-cases (find_player id r.game.players)) [
      | inl gone ↦
          let rest = in_room_of-player_in id f q q' rs does (ground (arith, here, gone)) in
          ground (arith, gone, rest)
      | inr (p, found) ↦
          let same : find_player id r.game.players ≡ some q = ground (arith, here, found) in
          ground (arith, found, does r.game same)
    ]

module _ (m : Machine) (addr : SockAddr) where
  dispatched :
      (p : PlayerInputPacket) (s : ServerManager)
      → on_message_received m (bytes_of (player_input p)) addr s
        ≡ on_player_input m (bytes_of (player_input p)) addr s
  unfolding on_message_received bytes_of
  dispatched p s = refl

  read_back :
      (p : PlayerInputPacket)
      → Fits (player_input p)
      → read_player_input (bytes_of (player_input p)) ≡ p
  read_back p fits =
      ap read_player_input (sym (append-nil (bytes_of (player_input p))))
      ∙ read_player_input-bytes_of p [] fits

  set_addr-id : (q : Player) → (set_addr addr q).id ≡ q.id
  unfolding set_addr
  set_addr-id q = ground arith

  served_in_game :
      (p : PlayerInputPacket) (q : Player) (g : Game)
      → find_player p.player_id g.players ≡ some q
      → find_player p.player_id
          (handle_player_input m (update_player_udp_addr g p.player_id addr) p).0.players
        ≡ some (steer m p (set_addr addr q))
  unfolding update_player_udp_addr
  served_in_game p q g here = ground (
    arith,
    here,
    handle_player_input-find_player m (update_player_udp_addr g p.player_id addr) p p.player_id,
    find_player-update_player p.player_id p.player_id (set_addr addr) g.players set_addr-id,
  )

  -- The bytes of an input reach the player in its room, whose address they may set.
  pub on_message_received-player_in :
      (p : PlayerInputPacket) (s : ServerManager) (q : Player)
      → Fits (player_input p)
      → player_in p.player_id s.rooms ≡ some q
      → player_in p.player_id (on_message_received m (bytes_of (player_input p)) addr s).rooms
        ≡ some (steer m p (set_addr addr q))
  unfolding on_player_input
  on_message_received-player_in p s q fits here =
      rw (dispatched p s, read_back p fits)
        (in_room_of-player_in p.player_id
          (λ g. handle_player_input m (update_player_udp_addr g p.player_id addr) p) q
          (steer m p (set_addr addr q)) s.rooms (served_in_game p q) here)
