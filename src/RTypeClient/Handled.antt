-- ===== src/RTypeClient/Handled.antt =====
-- The inputs that `Game::handlePlayerInput` of Src/Server/Game.cpp has handled, and the moves of
-- `RTypeClient::applyInput` of Src/Client/RTypeClient.cpp that go with them.
use rtype_ci_cd.Common.{
  ℕ, ◌≤◌, ◌<◌, ◌≡◌, refl, sym, ap, ◌∙◌, some, List, [], ◌∷◌, ◌++◌, inl, inr, Bool-cases, ltb, ◌==◌,
  if◌then◌else◌, arith,
}
use rtype_ci_cd.Common.Machine.{Machine}
use rtype_ci_cd.Common.Floats
use rtype_ci_cd.Protocol.Udp.{has_input, mask}
use rtype_ci_cd.Protocol.Udp.Messages.{PlayerInputPacket}
use rtype_ci_cd.Game.Types.{Player, Game}
use rtype_ci_cd.Game.Players.{find_player, raise_tick}
use rtype_ci_cd.Game.Shots.{count_input, move, handle_player_input}
use rtype_ci_cd.Game.Input.{steer, handle_player_input-find_player}
use rtype_ci_cd.RTypeClient.Types.{Position, at_rest}
use rtype_ci_cd.RTypeClient.Keys.{nudge}

-- The packets with an input: those that the client keeps.
abbrev pub active : List PlayerInputPacket → List PlayerInputPacket
active [] = []
active (p ∷ ps) = let rest = active ps in if p.inputs == 0 then rest else p ∷ rest

-- The ticks ascend, above `t`.
abbrev pub Ascends : ℕ → List PlayerInputPacket → Type 0
Ascends t [] = Unit
Ascends t (p ∷ ps) = (t < p.tick) × Ascends p.tick ps

-- The packets of one player.
abbrev pub AllOf : ℕ → List PlayerInputPacket → Type 0
AllOf id [] = Unit
AllOf id (p ∷ ps) = (p.player_id ≡ id) × AllOf id ps

pub Ascends-weaken : (ps : List PlayerInputPacket) (s t : ℕ) → s < t → Ascends t ps → Ascends s ps
Ascends-weaken [] s t h rest = tt
Ascends-weaken (p ∷ ps) s t h rest = (omega (arith, rest.0), rest.1)

pub AllOf-append :
    (id : ℕ) (ps qs : List PlayerInputPacket) → AllOf id (ps ++ qs) → AllOf id ps × AllOf id qs
AllOf-append id [] qs h = (tt, h)
AllOf-append id (p ∷ ps) qs h = let rest = AllOf-append id ps qs h.1 in ((h.0, rest.0), rest.1)

-- The place that a state packet tells.
abbrev pub place : Player → Position
place p = at_rest p.x p.y

module _ (m : Machine) where
  -- The server handles the packets one after the other.
  unfoldable pub handle_inputs : Game → List PlayerInputPacket → Game
  handle_inputs g [] = g
  handle_inputs g (p ∷ ps) = handle_inputs (handle_player_input m g p).0 ps

  abbrev pub nudge_all : List PlayerInputPacket → Position → Position
  nudge_all [] q = q
  nudge_all (p ∷ ps) q = nudge_all ps (nudge m p.inputs q)

  abbrev pub steer_all : List PlayerInputPacket → Player → Player
  steer_all [] q = q
  steer_all (p ∷ ps) q = steer_all ps (steer m p q)

  nudge_zero : (inputs : ℕ) (q : Position) → inputs ≡ 0 → nudge m inputs q ≡ q
  unfolding nudge has_input mask
  nudge_zero inputs q h = rw h refl

  pub nudge_all-active :
      (ps : List PlayerInputPacket) (q : Position) → nudge_all (active ps) q ≡ nudge_all ps q
  nudge_all-active [] q = refl
  nudge_all-active (p ∷ ps) q = elim (Bool-cases (p.inputs == 0)) [
    | inl zero_in ↦
        rw zero_in
          (nudge_all-active ps q ∙ ap (nudge_all ps) (sym (nudge_zero p.inputs q (ground arith))))
    | inr some_in ↦ rw some_in (nudge_all-active ps (nudge m p.inputs q))
  ]

  steer-velocity : (p : PlayerInputPacket) (q : Player) → (steer m p q).velocity ≡ q.velocity
  unfolding move raise_tick count_input
  steer-velocity p q = ground arith

  pub steer-tick :
      (p : PlayerInputPacket) (q : Player)
      → (steer m p q).last_processed_tick
        ≡ (if ltb q.last_processed_tick p.tick then p.tick else q.last_processed_tick)
  unfolding move raise_tick count_input
  steer-tick p q = ground arith

  -- One input moves the player on the server and its place on the client alike.
  steer-place :
      (p : PlayerInputPacket) (q : Player)
      → q.velocity ≡ Floats.five
      → place (steer m p q) ≡ nudge m p.inputs (place q)
  unfolding move raise_tick count_input nudge
  steer-place p q h = ground (arith, h)

  pub steer_all-tick :
      (ps : List PlayerInputPacket) (q : Player)
      → q.last_processed_tick ≤ (steer_all ps q).last_processed_tick
  steer_all-tick [] q = omega arith
  steer_all-tick (p ∷ ps) q = ground (arith, steer-tick p q, steer_all-tick ps (steer m p q))

  pub steer_all-velocity :
      (ps : List PlayerInputPacket) (q : Player) → (steer_all ps q).velocity ≡ q.velocity
  steer_all-velocity [] q = refl
  steer_all-velocity (p ∷ ps) q = steer_all-velocity ps (steer m p q) ∙ steer-velocity p q

  pub steer_all-place :
      (ps : List PlayerInputPacket) (q : Player)
      → q.velocity ≡ Floats.five
      → place (steer_all ps q) ≡ nudge_all ps (place q)
  steer_all-place [] q h = refl
  steer_all-place (p ∷ ps) q h =
      steer_all-place ps (steer m p q) (steer-velocity p q ∙ h)
      ∙ ap (nudge_all ps) (steer-place p q h)

  pub handle_inputs-find_player :
      (ps : List PlayerInputPacket) (id : ℕ) (g : Game) (q : Player)
      → AllOf id ps
      → find_player id g.players ≡ some q
      → find_player id (handle_inputs g ps).players ≡ some (steer_all ps q)
  unfolding handle_inputs
  handle_inputs-find_player [] id g q h here = here
  handle_inputs-find_player (p ∷ ps) id g q h here =
      handle_inputs-find_player ps id (handle_player_input m g p).0 (steer m p q) h.1
        (ground (arith, h.0, here, handle_player_input-find_player m g p id))
