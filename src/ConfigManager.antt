-- ===== src/ConfigManager.antt =====
-- Src/Client/ConfigManager.cpp and Include/Client/ConfigManager.hpp: the settings file. A file is the list
-- of its characters, or nothing where it cannot be opened.
pub mod Numbers
pub mod Roundtrip
mod Tests
use rtype_ci_cd.Common.{ℕ, Option, none, some, List, [], ◌∷◌, ◌++◌, ◌==◌, if◌then◌else◌}
use rtype_ci_cd.Common.Int.{ℤ, pos}
use rtype_ci_cd.Common.Strings.{Text, text_eq, insert_text}
use rtype_ci_cd.ConfigManager.Numbers.{show_int, stoi}

pub record Config : Type 0 where
  pub username : Text
  pub keybinds : List (Text × ℤ)

abbrev pub newline : ℕ
newline = b'\n'

abbrev pub equals : ℕ
equals = b'='

-- The names of the settings.
abbrev pub username_key : Text
username_key = b'u' ∷ b's' ∷ b'e' ∷ b'r' ∷ b'n' ∷ b'a' ∷ b'm' ∷ b'e' ∷ []

abbrev pub up_key : Text
up_key = b'U' ∷ b'P' ∷ []

abbrev pub down_key : Text
down_key = b'D' ∷ b'O' ∷ b'W' ∷ b'N' ∷ []

abbrev pub left_key : Text
left_key = b'L' ∷ b'E' ∷ b'F' ∷ b'T' ∷ []

abbrev pub right_key : Text
right_key = b'R' ∷ b'I' ∷ b'G' ∷ b'H' ∷ b'T' ∷ []

abbrev pub pressed_key : Text
pressed_key = b'P' ∷ b'R' ∷ b'E' ∷ b'S' ∷ b'S' ∷ b'E' ∷ b'D' ∷ []

-- The settings before the file is read: the keys stand in the order of the map.
unfoldable pub default_config : Config
default_config = record {
  username = [];
  keybinds =
      (down_key, pos 83)
      ∷ (left_key, pos 65)
      ∷ (pressed_key, pos 32)
      ∷ (right_key, pos 68)
      ∷ (up_key, pos 87)
      ∷ [];
}

-- One line that `saveConfig` writes.
unfoldable pub show_keybinds : List (Text × ℤ) → Text
show_keybinds [] = []
show_keybinds ((key, code) ∷ kb) = key ++ (equals ∷ (show_int code ++ (newline ∷ show_keybinds kb)))

-- The characters that `saveConfig` writes to a file that it can open.
unfoldable pub save_config : Config → Text
save_config c = username_key ++ (equals ∷ (c.username ++ (newline ∷ show_keybinds c.keybinds)))

-- `std::getline(ss, key, '=')`, and the rest of the line; nothing where there is no `=`: then the second
-- `getline` finds the stream at its end.
unfoldable pub split_line : Text → Option (Text × Text)
split_line [] = none
split_line (c ∷ cs) =
    let rest = split_line cs in
    if c == equals
    then some ([], cs)
    else elim rest [ none ↦ none | some (key, value) ↦ some (c ∷ key, value) ]

-- `config.keybinds[key] = std::stoi(value)`, or nothing where `stoi` throws.
unfoldable pub set_keybind : Text → Text → Config → Config
set_keybind key value c = elim (stoi value) [
  | none ↦ c
  | some code ↦ record c { keybinds = insert_text key code c.keybinds }
]

-- A line whose value is empty is passed over: the second `getline` reads no character.
unfoldable pub read_entry : Option (Text × Text) → Config → Config
read_entry none c = c
read_entry (some (key, [])) c = c
read_entry (some (key, v ∷ vs)) c =
    if text_eq key username_key then record c { username = v ∷ vs } else set_keybind key (v ∷ vs) c

unfoldable pub read_line : Text → Config → Config
read_line line c = read_entry (split_line line) c

-- `while (std::getline(file, line))`: the lines, of which the last may lack its end. `line` is what was
-- read of the line so far.
unfoldable pub read_lines : Text → Text → Config → Config
read_lines [] [] c = c
read_lines (l ∷ line) [] c = read_line (l ∷ line) c
read_lines line (ch ∷ chs) c =
    read_lines (if ch == newline then [] else line ++ ch ∷ []) chs
      (if ch == newline then read_line line c else c)

unfoldable pub load_config : Option Text → Config
load_config none = default_config
load_config (some file) = read_lines [] file default_config
