-- ===== src/ConfigManager/Roundtrip.antt =====
-- What Src/Client/ConfigManager.cpp saves, it loads.
use rtype_ci_cd.Common.{
  ℕ, ◌≡◌, ◌≢◌, refl, sym, ap, ◌∙◌, inl, inr, false, Option, none, some, List, [], ◌∷◌, ◌++◌, ◌==◌,
  arith,
}
use rtype_ci_cd.Common.Int.{ℤ}
use rtype_ci_cd.Common.Strings.{
  Text, text_eq, text_eq_iff, find_text, insert_text, find_text-insert_text,
}
use rtype_ci_cd.Protocol.Udp.Integers.{IsInt32}
use rtype_ci_cd.ConfigManager.{
  Config, newline, equals, username_key, default_config, show_keybinds, save_config, split_line,
  set_keybind, read_entry, read_line, read_lines, load_config,
}
use rtype_ci_cd.ConfigManager.Numbers.{
  show_int, stoi, AllDigits, is_digit, stoi-show_int, show_int_cases, show_int-cons,
}
use mathlib.Core.List.{append_assoc, append-nil}

-- The character is not in the text.
abbrev pub Lacks : ℕ → Text → Type 0
Lacks x [] = Unit
Lacks x (c ∷ cs) = (c ≢ x) × Lacks x cs

Lacks-append : (x : ℕ) (s t : Text) → Lacks x s → Lacks x t → Lacks x (s ++ t)
Lacks-append x [] t h k = k
Lacks-append x (c ∷ cs) t h k = (h.0, Lacks-append x cs t h.1 k)

split_line-equals :
    (key value : Text) → Lacks equals key → split_line (key ++ (equals ∷ value)) ≡ some (key, value)
unfolding split_line
split_line-equals [] value h = refl
split_line-equals (c ∷ cs) value h = ground (arith, h.0, split_line-equals cs value h.1)

not_newline : (x : ℕ) → x ≢ newline → (x == newline) ≡ false
not_newline x h = ground arith

read_lines_step :
    (line : Text) (x : ℕ) (rest : Text) (c : Config)
    → x ≢ newline
    → read_lines line (x ∷ rest) c ≡ read_lines (line ++ x ∷ []) rest c
unfolding read_lines
read_lines_step [] x rest c h = rw (read_lines, not_newline x h) refl
read_lines_step (l ∷ line) x rest c h = rw (read_lines, not_newline x h) refl

read_lines_end :
    (line rest : Text) (c : Config)
    → read_lines line (newline ∷ rest) c ≡ read_lines [] rest (read_line line c)
unfolding read_lines
read_lines_end [] rest c = refl
read_lines_end (l ∷ line) rest c = refl

-- A line is read to its end.
read_lines-line :
    (s line rest : Text) (c : Config)
    → Lacks newline s
    → read_lines line (s ++ (newline ∷ rest)) c ≡ read_lines [] rest (read_line (line ++ s) c)
read_lines-line [] line rest c h = rw append-nil (read_lines_end line rest c)
read_lines-line (x ∷ s) line rest c h =
    read_lines_step line x (s ++ (newline ∷ rest)) c h.0
    ∙ read_lines-line s (line ++ x ∷ []) rest c h.1
    ∙ ap (λ (t : Text). read_lines [] rest (read_line t c)) (append_assoc line (x ∷ []) s)

digits-Lacks : (x : ℕ) (s : Text) → is_digit x ≡ false → AllDigits s → Lacks x s
digits-Lacks x [] h k = tt
digits-Lacks x (c ∷ cs) h k = (λ e. ground (arith, h, k.0, e), digits-Lacks x cs h k.1)

show_int-Lacks : (a : ℤ) → Lacks newline (show_int a)
show_int-Lacks a = elim (show_int_cases a) [
  | inl digits ↦ digits-Lacks newline (show_int a) refl digits
  | inr (s, e, digits) ↦ rw e (λ q. ground (arith, q), digits-Lacks newline s refl digits)
]

-- Names of actions that the file can hold, with codes in the range of `int`, and no name twice.
abbrev pub Writable : List (Text × ℤ) → Type 0
Writable [] = Unit
Writable ((key, code) ∷ kb) =
    Lacks equals key
    × Lacks newline key
    × (key ≢ username_key)
    × IsInt32 code
    × (find_text key kb ≡ none)
    × Writable kb

abbrev insert_all : List (Text × ℤ) → List (Text × ℤ) → List (Text × ℤ)
insert_all [] m = m
insert_all ((key, code) ∷ kb) m = insert_all kb (insert_text key code m)

read_entry_keybind :
    (key : Text) (d : ℕ) (ds : Text) (code : ℤ) (c : Config)
    → key ≢ username_key
    → stoi (d ∷ ds) ≡ some code
    → read_entry (some (key, d ∷ ds)) c ≡ record c { keybinds = insert_text key code c.keybinds }
unfolding read_entry set_keybind
read_entry_keybind key d ds code c other value =
    ground (arith, other, text_eq_iff key username_key, value)

read_line_keybind :
    (key : Text) (code : ℤ) (c : Config)
    → Lacks equals key
    → key ≢ username_key
    → IsInt32 code
    → read_line (key ++ (equals ∷ show_int code)) c
      ≡ record c { keybinds = insert_text key code c.keybinds }
unfolding read_line
read_line_keybind key code c h other range =
    let (d, ds, e) = show_int-cons code in
    rw (split_line-equals key (show_int code) h) (
      ap (λ (v : Text). read_entry (some (key, v)) c) e
      ∙ read_entry_keybind key d ds code c other (ap stoi (sym e) ∙ stoi-show_int code range))

-- The lines of the actions.
read_lines-show_keybinds :
    (kb : List (Text × ℤ)) (c : Config)
    → Writable kb
    → read_lines [] (show_keybinds kb) c ≡ record c { keybinds = insert_all kb c.keybinds }
unfolding show_keybinds
read_lines-show_keybinds [] c h = unfold read_lines in refl
read_lines-show_keybinds ((key, code) ∷ kb) c h =
    let line = key ++ (equals ∷ show_int code) in
    let whole : Lacks newline line =
      Lacks-append newline key (equals ∷ show_int code) h.1
        (λ (e : equals ≡ newline). ground (arith, e), show_int-Lacks code) in
    ap (λ (t : Text). read_lines [] t c)
      (sym (append_assoc key (equals ∷ show_int code) (newline ∷ show_keybinds kb)))
    ∙ read_lines-line line [] (show_keybinds kb) c whole
    ∙ ap (read_lines [] (show_keybinds kb)) (read_line_keybind key code c h.0 h.2 h.3)
    ∙ read_lines-show_keybinds kb (record c { keybinds = insert_text key code c.keybinds }) h.5

abbrev pub or_else : Option ℤ → Option ℤ → Option ℤ
or_else none b = b
or_else (some a) b = some a

find_text-insert_all :
    (k : Text) (kb m : List (Text × ℤ))
    → Writable kb
    → find_text k (insert_all kb m) ≡ or_else (find_text k kb) (find_text k m)
find_text-insert_all k [] m h = unfold find_text in refl
find_text-insert_all k ((key, code) ∷ kb) m h =
    find_text-insert_all k kb (insert_text key code m) h.5
    ∙ ap (or_else (find_text k kb)) (find_text-insert_text k key code m)
    ∙ unfold find_text in ground (arith, text_eq_iff key k, h.4)

-- The line of the user name.
read_line_username :
    (name : Text)
    → read_line (username_key ++ (equals ∷ name)) default_config
      ≡ record default_config { username = name }
unfolding read_line split_line read_entry text_eq default_config
read_line_username [] = refl
read_line_username (u ∷ name) = refl

username_key-Lacks : Lacks newline (username_key ++ (equals ∷ []))
username_key-Lacks = omega arith

load_config_lines :
    (c : Config)
    → Lacks newline c.username
    → Writable c.keybinds
    → load_config (some (save_config c))
      ≡ record { username = c.username; keybinds = insert_all c.keybinds default_config.keybinds }
unfolding load_config save_config
load_config_lines c h w =
    read_lines-line (username_key ++ (equals ∷ c.username)) [] (show_keybinds c.keybinds)
      default_config
      (Lacks-append newline (username_key ++ (equals ∷ [])) c.username username_key-Lacks h)
    ∙ ap (read_lines [] (show_keybinds c.keybinds)) (read_line_username c.username)
    ∙ read_lines-show_keybinds c.keybinds (record default_config { username = c.username }) w

-- Settings whose user name has no line break, and whose actions have different names with no `=`, no line
-- break and not the name `username`, with codes in the range of `int`, are loaded from the file as they
-- were saved: the user name, and each action's code; an action that was not saved has its default.
pub load_config-save_config :
    (c : Config) (k : Text)
    → Lacks newline c.username
    → Writable c.keybinds
    → let loaded = load_config (some (save_config c)) in
      (loaded.username ≡ c.username)
      × (find_text k loaded.keybinds
          ≡ or_else (find_text k c.keybinds) (find_text k default_config.keybinds))
load_config-save_config c k h w =
    rw (load_config_lines c h w) (refl, find_text-insert_all k c.keybinds default_config.keybinds w)
