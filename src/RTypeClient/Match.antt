-- ===== src/RTypeClient/Match.antt =====
-- A match on the client from its start, with the settings of any file.
use rtype_ci_cd.Common.{
  ℕ, ◌≡◌, ◌≢◌, refl, Bool, true, false, Option, none, some, List, [], ◌∷◌, ◌==◌, inl, inr,
  Option-cases, if◌then◌else◌, arith,
}
use rtype_ci_cd.Common.Int.{pos}
use rtype_ci_cd.Common.Machine.{Machine}
use rtype_ci_cd.Common.Strings.{Text, text_eq, find_text}
use rtype_ci_cd.ConfigManager.{
  Config, newline, username_key, default_config, set_keybind, read_entry, read_line, split_line,
  read_lines, load_config,
}
use rtype_ci_cd.ConfigManager.Numbers.{stoi}
use rtype_ci_cd.RTypeClient.Types.{InGameStatus, playing, quitting, kicked, victory, new_client}
use rtype_ci_cd.RTypeClient.Frame.{Frame}
use rtype_ci_cd.RTypeClient.Session.{IsBound, insert-IsBound}
use rtype_ci_cd.RTypeClient.Runs.{run, IsPath, run-IsPath}

abbrev pub KeysBound : Config → Type 0
KeysBound c = IsBound c.keybinds

default_config-KeysBound : KeysBound default_config
unfolding default_config find_text text_eq
default_config-KeysBound = record {
  up = pos 87;
  down = pos 83;
  left = pos 65;
  right = pos 68;
  find_up = refl;
  find_down = refl;
  find_left = refl;
  find_right = refl;
}

set_keybind-KeysBound :
    (key value : Text) (c : Config) → KeysBound c → KeysBound (set_keybind key value c)
unfolding set_keybind
set_keybind-KeysBound key value c h = elim (Option-cases (stoi value)) [
  | inl bad ↦ rw (set_keybind, bad) h
  | inr (code, good) ↦ rw (set_keybind, good) (insert-IsBound key code c.keybinds h)
]

if_KeysBound :
    (b : Bool) (c d : Config) → KeysBound c → KeysBound d → KeysBound (if b then c else d)
if_KeysBound true c d h k = h
if_KeysBound false c d h k = k

read_entry-KeysBound :
    (entry : Option (Text × Text)) (c : Config) → KeysBound c → KeysBound (read_entry entry c)
unfolding read_entry
read_entry-KeysBound none c h = h
read_entry-KeysBound (some (key, [])) c h = h
read_entry-KeysBound (some (key, v ∷ vs)) c h =
    if_KeysBound (text_eq key username_key) _ _ h (set_keybind-KeysBound key (v ∷ vs) c h)

read_lines-KeysBound :
    (file line : Text) (c : Config) → KeysBound c → KeysBound (read_lines line file c)
unfolding read_lines read_line
read_lines-KeysBound [] [] c h = h
read_lines-KeysBound [] (l ∷ line) c h = read_entry-KeysBound (split_line (l ∷ line)) c h
read_lines-KeysBound (ch ∷ chs) [] c h =
    read_lines-KeysBound chs _ _
      (if_KeysBound (ch == newline) _ _ (read_entry-KeysBound (split_line []) c h) h)
read_lines-KeysBound (ch ∷ chs) (l ∷ line) c h =
    read_lines-KeysBound chs _ _
      (if_KeysBound (ch == newline) _ _ (read_entry-KeysBound (split_line (l ∷ line)) c h) h)

pub load_config-KeysBound : (file : Option Text) → KeysBound (load_config file)
unfolding load_config
load_config-KeysBound none = default_config-KeysBound
load_config-KeysBound (some file) =
    read_lines-KeysBound file [] default_config default_config-KeysBound

-- No victory, and what is final is kept.
abbrev pub Lasts : InGameStatus → List InGameStatus → Type 0
Lasts s [] = Unit
Lasts s (t ∷ ts) =
    (t ≢ victory) × (s ≡ quitting → t ≡ quitting) × (s ≡ kicked → t ≡ kicked) × Lasts t ts

path-Lasts : (s : InGameStatus) (ts : List InGameStatus) → s ≢ victory → IsPath s ts → Lasts s ts
path-Lasts s [] h path = tt
path-Lasts s (t ∷ ts) h path =
    let no : t ≢ victory = λ e. ground (arith, e, h, path.0) in
    (
      no,
      (λ e. ground (arith, e, path.0)),
      (λ e. ground (arith, e, path.0)),
      path-Lasts t ts no path.1,
    )

module _ (m : Machine) where
  -- A match that starts with the settings of any file, or of none, runs through any frames, whatever is
  -- pressed, clicked and received in them: no look-up of a key throws. Each status after a frame may follow
  -- the one before, none of them is victory, and quitting and kicked are never left.
  pub run-new_client :
      (file : Option Text) (player_id server_time_ms charge_start : ℕ) (is_charging : Bool)
      (fs : List Frame)
      → (ts : List InGameStatus) × (run m fs none (
            new_client player_id server_time_ms
              (load_config file).keybinds
              charge_start
              is_charging)
          ≡ some ts)
        × IsPath playing ts
        × Lasts playing ts
  unfolding new_client
  run-new_client file player_id server_time_ms charge_start is_charging fs =
      let (ts, ran, path) =
        run-IsPath m fs none
          (new_client player_id server_time_ms (load_config file).keybinds charge_start is_charging)
          (load_config-KeysBound file) in
      (ts, ran, path, path-Lasts playing ts (λ e. ground (arith, e)) path)
