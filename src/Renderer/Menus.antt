-- ===== src/Renderer/Menus.antt =====
-- The menus of Src/Client/Renderer.cpp.
use rtype_ci_cd.Common.{
  ℕ, ◌+◌, Bool, true, false, ◌&&◌, Option, none, some, List, [], ◌∷◌, ◌++◌, length, ltb, leb, ◌==◌,
  if◌then◌else◌,
}
use rtype_ci_cd.Common.Int.{ℤ, pos, negsuc, eq_ℤ}
use rtype_ci_cd.Common.Machine.{Machine, Float}
use rtype_ci_cd.Common.Floats
use rtype_ci_cd.Renderer.Types.{Rect}
use rtype_ci_cd.Common.Strings.{Text, insert_text, pop_back, not_empty}

-- A frame: the size of the window, whether the mouse is in a rectangle, and whether its left button went
-- down.
pub record Screen : Type 0 where
  pub width : ℕ
  pub height : ℕ
  pub over : Rect → Bool
  pub clicked : Bool

abbrev pub hit : Screen → Rect → Bool
hit s r = s.over r && s.clicked

pub data MainMenuChoice : Type 0 where
  no_choice start options : MainMenuChoice

pub data PauseMenuChoice : Type 0 where
  no_choice options quit : PauseMenuChoice

-- The rectangle of the room at the height `y`.
abbrev pub room_button : Machine → ℕ → Rect
room_button m y = record {
  x = Floats.fifty;
  y = m.of_int (pos y);
  width = Floats.six_hundred;
  height = Floats.fifty;
}

-- The list of the rooms: the last one that was clicked. A room is its id.
unfoldable pub room_loop : Machine → Screen → ℕ → ℤ → List ℤ → ℤ
room_loop m s y action [] = action
room_loop m s y action (id ∷ ids) =
    room_loop m s (y + 60) (if hit s (room_button m y) then id else action) ids

abbrev pub create_button : Rect
create_button = record {
  x = Floats.fifty;
  y = Floats.one_hundred_20;
  width = Floats.two_hundred_50;
  height = Floats.fifty;
}

unfoldable pub draw_room_menu : Machine → Screen → List ℤ → ℤ
draw_room_menu m s ids = room_loop m s 200 (if hit s create_button then negsuc 1 else negsuc 0) ids

-- The text field of `drawUsernameInput`: a character that is printed, while there is room for it.
unfoldable pub type_username : List ℕ → Text → Text
type_username [] name = name
type_username (key ∷ keys) name =
    type_username keys
      (if leb 32 key && leb key 125 && ltb (length name) 31 then name ++ key ∷ [] else name)

-- The new text, and whether it is confirmed. `chars` are those of `GetCharPressed`.
unfoldable pub draw_username_input : List ℕ → Bool → Bool → Text → Text × Bool
draw_username_input chars backspace enter name =
    let typed = type_username chars name in
    let edited = if backspace then pop_back typed else typed in (edited, enter && not_empty edited)

module _ (m : Machine) (s : Screen) where
  -- A button in the middle of the window, at the height `y`.
  abbrev pub centre_button : Float → Rect
  centre_button y = record {
    x = m.sub (m.div (m.of_int (pos s.width)) Floats.two) Floats.one_hundred_25;
    y = y;
    width = Floats.two_hundred_50;
    height = Floats.fifty;
  }

  unfoldable pub draw_pause_menu : PauseMenuChoice
  draw_pause_menu =
      if hit s (centre_button Floats.three_hundred_90)
      then PauseMenuChoice.quit
      else if hit s (centre_button Floats.three_hundred_20)
      then PauseMenuChoice.options
      else PauseMenuChoice.no_choice

  unfoldable pub draw_main_menu : MainMenuChoice
  draw_main_menu =
      if hit s (centre_button Floats.three_hundred_70)
      then MainMenuChoice.options
      else if hit s (centre_button Floats.three_hundred)
      then MainMenuChoice.start
      else MainMenuChoice.no_choice

  abbrev pub bottom : Float
  bottom = m.sub (m.of_int (pos s.height)) Floats.hundred

  -- Whether the game is to start: only the host has the button.
  unfoldable pub draw_lobby : ℕ → ℕ → Bool
  draw_lobby host me =
      me == host
      && hit s (record {
        x = Floats.fifty;
        y = bottom;
        width = Floats.two_hundred_50;
        height = Floats.fifty;
      })

  -- The action whose button `Change` is clicked last, if any is.
  unfoldable pub change_loop : ℕ → Option Text → List (Text × ℤ) → Option Text
  change_loop y chosen [] = chosen
  change_loop y chosen ((action, key) ∷ kb) =
      change_loop (y + 50)
        (if hit s (record {
          x = Floats.six_hundred;
          y = m.sub (m.of_int (pos y)) Floats.five;
          width = Floats.one_hundred_50;
          height = Floats.forty;
        })
          then some action
          else chosen)
        kb

  -- What waits for a key, after a click on `Back`; and whether the menu is left.
  abbrev pub press_back : Bool → Option Text → Option Text × Bool
  press_back false remap = (remap, false)
  press_back true none = (none, true)
  press_back true (some action) = (none, false)

  -- A key for the action that waits, where `key` is that of `GetKeyPressed`; or a click on an action.
  unfoldable pub remap_key : ℤ → Option Text → List (Text × ℤ) → Option Text × List (Text × ℤ)
  remap_key key (some action) kb =
      if eq_ℤ key (pos 0) then (some action, kb) else (none, insert_text action key kb)
  remap_key key none kb = (change_loop 150 none kb, kb)

  -- `_actionToRemap`, the bindings, and whether the menu is left.
  unfoldable pub draw_options_menu :
      ℤ → Option Text → List (Text × ℤ) → Option Text × List (Text × ℤ) × Bool
  draw_options_menu key remap kb =
      let back = hit s (record {
        x = Floats.fifty;
        y = bottom;
        width = Floats.one_hundred_50;
        height = Floats.fifty;
      }) in
      let (waiting, left) = press_back back remap in
      let (waiting', kb') = remap_key key waiting kb in (waiting', kb', left)
