-- ===== src/RTypeClient/Keys.antt =====
-- `RTypeClient::applyInput` and `RTypeClient::handleInput`.
use rtype_ci_cd.Common.{
  ℕ, ◌+◌, ◌-◌, ◌%◌, Bool, true, false, not, ◌&&◌, Option, none, some, List, [], ◌∷◌, ◌++◌, ltb, leb,
  ◌==◌, if◌then◌else◌, u32,
}
use rtype_ci_cd.Common.Int.{ℤ}
use rtype_ci_cd.Common.Machine.{Machine}
use rtype_ci_cd.Common.Floats
use rtype_ci_cd.Common.Maps.{find, insert}
use rtype_ci_cd.Common.Strings.{Text, find_text, pop_back}
use rtype_ci_cd.Protocol.Udp.{Input, mask, has_input}
use rtype_ci_cd.Protocol.Udp.Messages.{PlayerInputPacket, player_input}
use rtype_ci_cd.ConfigManager.{up_key, down_key, left_key, right_key}
use rtype_ci_cd.RTypeClient.Types.{Position, RTypeClient, Effect, send, send_chat}

-- What raylib reports in a frame: the keys that went down or up in it, the characters of
-- `GetCharPressed` in their order, and the keys that are down, by their codes.
pub record Keys : Type 0 where
  pub escape_pressed : Bool
  pub enter_pressed : Bool
  pub tab_pressed : Bool
  pub backspace_pressed : Bool
  pub space_pressed : Bool
  pub space_released : Bool
  pub chars : List ℕ
  pub down : ℤ → Bool

-- `while (key > 0) { if (key >= 32 && key <= 125) text += (char)key; … }`
unfoldable pub type_chars : List ℕ → Text → Text
type_chars [] text = text
type_chars (key ∷ keys) text =
    type_chars keys (if leb 32 key && leb key 125 then text ++ key ∷ [] else text)

-- The branch of `handleInput` for an open chat.
unfoldable pub edit_chat : Keys → RTypeClient → RTypeClient × List Effect
edit_chat keys c =
    let typed = type_chars keys.chars c.chat_input in
    let edited = if keys.backspace_pressed then pop_back typed else typed in
    (record c { chat_input = edited }, [])

unfoldable pub submit_chat : Text → RTypeClient → RTypeClient × List Effect
submit_chat [] c = (record c { is_chat_active = false }, [])
submit_chat (ch ∷ chs) c = (
  record c {
    chat_history = c.chat_history ++ (b'M' ∷ b'e' ∷ b':' ∷ b' ' ∷ ch ∷ chs) ∷ [];
    chat_input = [];
    is_chat_active = false;
  },
  send_chat (ch ∷ chs) ∷ [],
)

unfoldable pub bit_if : Bool → Input → ℕ
bit_if b i = if b then mask i else 0

-- The directions, or nothing where `_keybinds.at` throws.
unfoldable pub directions : Keys → List (Text × ℤ) → Option ℕ
directions keys kb = elim (find_text up_key kb) [
  | none ↦ none
  | some up ↦ elim (find_text down_key kb) [
    | none ↦ none
    | some down ↦ elim (find_text left_key kb) [
      | none ↦ none
      | some left ↦ elim (find_text right_key kb) [
        | none ↦ none
        | some right ↦ some (
            bit_if (keys.down up) Input.up
            + bit_if (keys.down down) Input.down
            + bit_if (keys.down left) Input.left
            + bit_if (keys.down right) Input.right)
      ]
    ]
  ]
]

-- The charge: the new `chargeStart` and `isCharging`, and the bit that is set. `time` is the clock.
unfoldable pub charge : Keys → ℕ → ℕ → Bool → ℕ × Bool × ℕ
charge keys time start charging =
    if keys.space_pressed
    then (if charging then (start, charging, 0) else (time, true, 0))
    else if keys.space_released && charging
    then (
      start,
      false,
      if ltb 500 ((time + u32 - start) % u32) then mask Input.hold else mask Input.pressed,
    )
    else (start, charging, 0)

module _ (m : Machine) where
  -- The four directions, one after the other.
  unfoldable pub nudge : ℕ → Position → Position
  nudge inputs p =
      let y1 = if has_input inputs Input.up then m.sub p.y Floats.five else p.y in
      let y2 = if has_input inputs Input.down then m.add y1 Floats.five else y1 in
      let x1 = if has_input inputs Input.left then m.sub p.x Floats.five else p.x in
      let x2 = if has_input inputs Input.right then m.add x1 Floats.five else x1 in
      record p { x = x2; y = y2 }

  unfoldable pub apply_input : ℕ → ℕ → List (ℕ × Position) → List (ℕ × Position)
  apply_input me inputs players = elim (find me players) [
    | none ↦ players
    | some p ↦ insert me (nudge inputs p) players
  ]

  -- The packet of a frame. Its bits are disjoint, so that `|=` adds them.
  unfoldable pub send_input : ℕ → Bool → ℕ → ℕ → RTypeClient → RTypeClient × List Effect
  send_input start charging shot moves c =
      let packet : PlayerInputPacket = record {
        player_id = c.my_player_id;
        tick = c.tick;
        inputs = moves + shot;
      } in
      let sent : RTypeClient = record c {
        tick = (c.tick + 1) % u32;
        charge_start = start;
        is_charging = charging;
      } in
      (
        if packet.inputs == 0 then sent else record sent {
          players = apply_input c.my_player_id packet.inputs c.players;
          pending_inputs = c.pending_inputs ++ packet ∷ [];
        },
        send (player_input packet) ∷ [],
      )

  -- Nothing is where the method throws. `time` is the clock at the space key.
  unfoldable pub handle_input : Keys → ℕ → RTypeClient → Option (RTypeClient × List Effect)
  handle_input keys time c =
      if keys.tab_pressed
      then some (record c { is_chat_active = not c.is_chat_active }, [])
      else if c.is_chat_active
      then some (if keys.enter_pressed then submit_chat c.chat_input c else edit_chat keys c)
      else elim (directions keys c.keybinds) [
        | none ↦ none
        | some moves ↦
            let (start, charging, shot) = charge keys time c.charge_start c.is_charging in
            some (send_input start charging shot moves c)
      ]

-- The packet that the constructor sends.
unfoldable pub greeting : RTypeClient → Effect
greeting c = send (player_input (record { player_id = c.my_player_id; tick = 0; inputs = 0 }))
