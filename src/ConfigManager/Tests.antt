-- ===== src/ConfigManager/Tests.antt =====
-- Settings of Src/Client/ConfigManager.cpp, saved and loaded.
use rtype_ci_cd.Common.{◌≡◌, refl, some, [], ◌∷◌, arith}
use rtype_ci_cd.Common.Int.{pos, negsuc}
use rtype_ci_cd.Common.Strings.{text_eq, text_lt, find_text, insert_text}
use rtype_ci_cd.ConfigManager
use rtype_ci_cd.ConfigManager.{
  Config, up_key, pressed_key, default_config, load_config, save_config,
}
use rtype_ci_cd.ConfigManager.Numbers.{read_digits, read_magnitude, read_signed, stoi}
use rtype_ci_cd.ConfigManager.Roundtrip.{or_else, load_config-save_config}

-- Two actions, of which one was moved to another key; the name holds a `=`.
abbrev settings : Config
settings = record {
  username = b'a' ∷ b'=' ∷ b'b' ∷ [];
  keybinds = (pressed_key, negsuc 6) ∷ (up_key, pos 265) ∷ [];
}

load_config_test :
    (load_config (some (b'U' ∷ b'P' ∷ b'=' ∷ b' ' ∷ b'9' ∷ b'x' ∷ []))).keybinds
    ≡ insert_text up_key (pos 9) default_config.keybinds
unfolding load_config ConfigManager.read_lines ConfigManager.read_line ConfigManager.split_line
    ConfigManager.read_entry ConfigManager.set_keybind default_config text_eq text_lt insert_text
    read_digits read_magnitude read_signed stoi
load_config_test = refl

load_config-save_config_example :
    let loaded = load_config (some (save_config settings)) in
    (loaded.username ≡ settings.username)
    × (find_text up_key loaded.keybinds
        ≡ or_else (find_text up_key settings.keybinds) (find_text up_key default_config.keybinds))
load_config-save_config_example = load_config-save_config settings up_key (omega arith) (
  omega arith,
  omega arith,
  (λ e. ground (arith, e)),
  omega arith,
  (unfold find_text text_eq in refl),
  (omega arith, omega arith, (λ e. ground (arith, e)), omega arith, (unfold find_text in refl), tt),
)
