-- ===== src/Renderer/Players.antt =====
-- The loop over the players of `Renderer::draw`.
use rtype_ci_cd.Common.{
  ℕ, ◌%◌, Bool, ◌&&◌, none, some, List, [], ◌∷◌, ◌++◌, ◌==◌, not, if◌then◌else◌,
}
use rtype_ci_cd.Common.Int.{ℤ, pos, mod_ℤ}
use rtype_ci_cd.Common.Machine.{Machine, Float, Double}
use rtype_ci_cd.Common.Floats
use rtype_ci_cd.Common.Maps.{find, insert}
use rtype_ci_cd.Common.Strings.{Text, find_text}
use rtype_ci_cd.ConfigManager.{up_key, down_key}
use rtype_ci_cd.RTypeClient.Types.{Position}
use rtype_ci_cd.Renderer.Types.{Texture, Draw, sprite}

-- What a frame reads: `GetFrameTime`, `IsKeyDown`, the size of the window, `GetTime` at each of its calls (at
-- the charge, at the entity with an id, at a round of the loop over the explosions, at the chat),
-- `MeasureText`, and `TextFormat` with the formats "SCORE: %06d" and "Loss: %.1f%%".
pub record Sight : Type 0 where
  pub frame_time : Float
  pub down : ℤ → Bool
  pub width : ℕ
  pub height : ℕ
  pub charge_time : Double
  pub entity_time : ℕ → Double
  pub explosion_time : ℕ → Double
  pub chat_time : Double
  pub measure_text : Text → ℕ → ℤ
  pub format_score : ℕ → Text
  pub format_loss : Float → Text

-- `keybinds.count(name) ? keybinds.at(name) : key`
abbrev pub key_or : Text → ℤ → List (Text × ℤ) → ℤ
key_or name key kb = elim (find_text name kb) [ none ↦ key | some code ↦ code ]

-- `KEY_UP`, `KEY_DOWN` and `KEY_SPACE` of raylib.
abbrev pub key_up : ℤ
key_up = pos 265

abbrev pub key_down : ℤ
key_down = pos 264

abbrev pub key_space : ℤ
key_space = pos 32

-- The row of a player in the sheet of the ships.
unfoldable pub base_y : ℕ → Float
base_y index =
    if index == 0
    then Floats.zero_f
    else if index == 1
    then Floats.eighteen
    else if index == 2
    then Floats.thirty_six
    else if index == 3
    then Floats.fifty_three
    else Floats.zero_f

module _ (m : Machine) (f : Sight) (kb : List (Text × ℤ)) (me : ℕ) where
  unfoldable pub target_bank : ℕ → Position → Float
  target_bank id p =
      if id == me
      then (if f.down (key_or up_key key_up kb)
          then Floats.four
          else if f.down (key_or down_key key_down kb)
          then Floats.zero_f
          else Floats.two)
      else if m.lt p.vy Floats.minus_tenth
      then Floats.four
      else if m.lt Floats.tenth p.vy
      then Floats.zero_f
      else Floats.two

  -- `std::min(a, b)` and `std::max(a, b)`.
  abbrev pub min_float : Float → Float → Float
  min_float a b = if m.lt b a then b else a

  abbrev pub max_float : Float → Float → Float
  max_float a b = if m.lt a b then b else a

  -- A step of the bank towards its target.
  unfoldable pub ease : Float → Float → Float
  ease current target =
      let speed = m.mul Floats.fifteen f.frame_time in
      if m.lt current target
      then min_float (m.add current speed) target
      else if m.lt target current
      then max_float (m.sub current speed) target
      else current

  abbrev pub bank_of : ℕ → List (ℕ × Float) → Float
  bank_of id banks = elim (find id banks) [ none ↦ Floats.two | some bank ↦ bank ]

  -- The ship, in the picture that its bank and its id choose.
  unfoldable pub draw_ship : List (ℕ × Texture) → Float → ℕ → Position → List Draw
  draw_ship textures bank id p = elim (find 0 textures) [
    | none ↦ []
    | some texture ↦
        let width = m.mul Floats.thirty_three Floats.two in
        let height = m.mul Floats.seventeen Floats.two in
        if texture.id == 0
        then []
        else sprite texture
            (record {
              x = m.mul (m.of_int (m.to_int (m.wide bank))) Floats.thirty_three;
              y = base_y (id % 4);
              width = Floats.thirty_three;
              height = Floats.seventeen;
            })
            (record { x = p.x; y = p.y; width = width; height = height })
            (m.div width Floats.two, m.div height Floats.two)
          ∷ []
  ]

  -- The charge before the own ship, while the space key is down.
  unfoldable pub draw_charge : List (ℕ × Texture) → ℕ → Position → List Draw
  draw_charge textures id p = elim (find 4 textures) [
    | none ↦ []
    | some texture ↦
        let frame = mod_ℤ (m.to_int (m.mul_double f.charge_time (m.wide Floats.ten))) 8 in
        let width = m.mul Floats.thirty_three Floats.two in
        let height = m.mul Floats.thirty_six Floats.two in
        if id == me && f.down key_space && not (texture.id == 0)
        then sprite texture
            (record {
              x = m.add Floats.zero_f (m.mul (m.of_int frame) Floats.thirty_three);
              y = Floats.forty_nine;
              width = Floats.thirty_three;
              height = Floats.thirty_six;
            })
            (record {
              x = m.add p.x Floats.ten;
              y = m.sub p.y (m.div height Floats.two);
              width = width;
              height = height;
            })
            (Floats.zero_f, Floats.zero_f)
          ∷ []
        else []
  ]

  -- The loop: `_playerBank`, and what is drawn.
  unfoldable pub draw_players :
      List (ℕ × Texture) → List (ℕ × Float) → List (ℕ × Position) → List (ℕ × Float) × List Draw
  draw_players textures banks [] = (banks, [])
  draw_players textures banks ((id, p) ∷ ps) =
      let bank = ease (bank_of id banks) (target_bank id p) in
      let (banks', draws) = draw_players textures (insert id bank banks) ps in
      (banks', draw_ship textures bank id p ++ (draw_charge textures id p ++ draws))
