-- ===== src/Renderer/Overlay.antt =====
-- What Src/Client/Renderer.cpp draws over the match: the chat, and the screens of its end.
use rtype_ci_cd.Common.{ℕ, suc, ◌+◌, ◌*◌, ◌/◌, Bool, List, [], ◌∷◌, ◌++◌, ◌==◌, leb, if◌then◌else◌}
use rtype_ci_cd.Common.Int.{ℤ, pos, ◌+ℤ◌, ◌-ℤ◌, div_ℤ, mod_ℤ, eq_ℤ}
use rtype_ci_cd.Common.Machine.{Machine, Float}
use rtype_ci_cd.Common.Floats
use rtype_ci_cd.Common.Strings.{Text, codes}
use rtype_ci_cd.ConfigManager.Numbers.{show_digits, show_int}
use rtype_ci_cd.RTypeClient.Types.{Position}
use rtype_ci_cd.TcpClient.Lobby.{LobbyPlayerInfo}
use rtype_ci_cd.Renderer.Types.{
  Color, Draw, clear, text, rectangle, outline, white, black, red, light_gray, dark_gray, gold,
  green, fade,
}
use rtype_ci_cd.Renderer.Players.{Sight}

-- `messages.rbegin()` and on.
abbrev pub newest_first : List Text → List Text
newest_first [] = []
newest_first (s ∷ ss) = newest_first ss ++ s ∷ []

module _ (m : Machine) (f : Sight) where
  abbrev pub chat_y : ℤ
  chat_y = pos f.height -ℤ pos 150

  -- The loop over the messages, of which `count` are drawn.
  unfoldable pub message_loop : ℕ → List Text → List Draw
  message_loop count [] = []
  message_loop count (s ∷ ss) =
      let rest = message_loop (suc count) ss in
      if leb 5 count then [] else text s (pos 20) (chat_y -ℤ pos (count * 25)) 20 white ∷ rest

  -- The field of the text that is typed; the mark behind it blinks.
  unfoldable pub draw_chat_input : Text → List Draw
  draw_chat_input input =
      let box = fade dark_gray Floats.four_fifths in
      let mark =
        text (codes "_") (pos 25 +ℤ f.measure_text input 20) (chat_y +ℤ pos 35) 20 white ∷ [] in
      rectangle (pos 20) (chat_y +ℤ pos 30) (pos 400) (pos 30) box
      ∷ outline (pos 20) (chat_y +ℤ pos 30) (pos 400) (pos 30) light_gray
      ∷ text input (pos 25) (chat_y +ℤ pos 35) 20 white
      ∷ (if eq_ℤ (mod_ℤ (m.to_int (m.mul_double f.chat_time (m.wide Floats.two))) 2) (pos 0)
          then mark
          else [])

  unfoldable pub draw_chat : List Text → Text → Bool → List Draw
  draw_chat messages input active =
      let hint =
        text (codes "Press TAB to chat") (pos 20) (chat_y +ℤ pos 35) 15
          (fade light_gray Floats.half)
        ∷ [] in
      message_loop 0 (newest_first messages) ++ (if active then draw_chat_input input else hint)

module _ (f : Sight) where
  -- `GetScreenWidth() / 2 - MeasureText(s, size) / 2`
  abbrev pub centre_x : Text → ℕ → ℤ
  centre_x s size = pos (f.width / 2) -ℤ div_ℤ (f.measure_text s size) 2

  abbrev pub centred_text : Text → ℤ → ℕ → Color → Draw
  centred_text s y size color = text s (centre_x s size) y size color

  abbrev pub middle : ℤ
  middle = pos (f.height / 2)

  unfoldable pub draw_kicked_screen : List Draw
  draw_kicked_screen =
      clear black
      ∷ centred_text (codes "You have been kicked from the server.") (middle -ℤ pos 40) 40 red
      ∷ centred_text (codes "Press ENTER or click to exit.") (middle +ℤ pos 20) 20 light_gray
      ∷ []

  abbrev pub cover : Float → Draw
  cover alpha = rectangle (pos 0) (pos 0) (pos f.width) (pos f.height) (fade black alpha)

  unfoldable pub draw_game_over_screen : ℤ → List Draw
  draw_game_over_screen score =
      cover Floats.four_fifths
      ∷ centred_text (codes "GAME OVER") (middle -ℤ pos 100) 60 red
      ∷ centred_text (codes "Final Score: " ++ show_int score) middle 40 white
      ∷ centred_text (codes "Press ENTER to exit") (middle +ℤ pos 80) 20 light_gray
      ∷ []

  abbrev pub board_x : ℤ
  board_x = pos (f.width / 2) -ℤ pos 250

  -- The line of a player that is not the own one.
  abbrev pub rank_line : ℕ → ℕ → ℕ → Draw
  rank_line rank y id =
      text
        (show_digits 10 rank
          ++ (codes ". Player " ++ (show_digits 10 id ++ codes " ................... ???")))
        board_x (pos y) 30 light_gray

  -- The loop over the other players.
  unfoldable pub scoreboard_loop : ℕ → ℕ → ℕ → List (ℕ × Position) → List Draw
  scoreboard_loop me rank y [] = []
  scoreboard_loop me rank y ((id, p) ∷ ps) =
      let rest = scoreboard_loop me rank y ps in
      let later = scoreboard_loop me (suc rank) (y + 50) ps in
      if id == me then rest else rank_line rank y id ∷ later

  abbrev pub own_line : ℕ → ℤ → Draw
  own_line me score =
      text
        (codes "1. Player "
          ++ (show_digits 10 me ++ (codes " (YOU) ........... " ++ show_int score)))
        board_x (pos 200) 30 green

  unfoldable pub draw_victory_screen : ℤ → List (ℕ × Position) → ℕ → List Draw
  draw_victory_screen score players me =
      cover Floats.point_85
      ∷ centred_text (codes "MISSION ACCOMPLISHED") (pos 80) 60 gold
      ∷ centred_text (codes "SCOREBOARD") (pos 150) 40 white
      ∷ own_line me score
      ∷ (scoreboard_loop me 2 250 players
          ++ centred_text (codes "Press ENTER to return to menu") (pos f.height -ℤ pos 100) 20
              light_gray
            ∷ [])

-- `text += " - HOST"` for the host.
abbrev pub player_label : ℕ → LobbyPlayerInfo → Text
player_label host p =
    p.username
    ++ (codes " (ID: "
        ++ (show_digits 10 p.player_id
            ++ (if p.player_id == host then codes ") - HOST" else codes ")")))

-- The players that wait in the lobby.
unfoldable pub draw_lobby_players : ℕ → ℕ → List LobbyPlayerInfo → List Draw
draw_lobby_players host y [] = []
draw_lobby_players host y (p ∷ ps) =
    text (player_label host p) (pos 70) (pos y) 30 white ∷ draw_lobby_players host (y + 40) ps
