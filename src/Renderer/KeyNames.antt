-- ===== src/Renderer/KeyNames.antt =====
-- `Renderer::GetKeyName` of Src/Client/Renderer.cpp. The codes are those of raylib's `KeyboardKey`.
use rtype_ci_cd.Common.{ℕ, none, some, List, [], ◌∷◌}
use rtype_ci_cd.Common.Int.{ℤ, pos, negsuc}
use rtype_ci_cd.Common.Maps.{find}
use rtype_ci_cd.Common.Strings.{Text, codes}

-- The cases of the switch, in their order.
abbrev pub key_names : List (ℕ × Text)
key_names =
    (39, codes "'")
    ∷ (44, codes ",")
    ∷ (45, codes "-")
    ∷ (46, codes ".")
    ∷ (47, codes "/")
    ∷ (48, codes "0")
    ∷ (49, codes "1")
    ∷ (50, codes "2")
    ∷ (51, codes "3")
    ∷ (52, codes "4")
    ∷ (53, codes "5")
    ∷ (54, codes "6")
    ∷ (55, codes "7")
    ∷ (56, codes "8")
    ∷ (57, codes "9")
    ∷ (59, codes ";")
    ∷ (61, codes "=")
    ∷ (65, codes "A")
    ∷ (66, codes "B")
    ∷ (67, codes "C")
    ∷ (68, codes "D")
    ∷ (69, codes "E")
    ∷ (70, codes "F")
    ∷ (71, codes "G")
    ∷ (72, codes "H")
    ∷ (73, codes "I")
    ∷ (74, codes "J")
    ∷ (75, codes "K")
    ∷ (76, codes "L")
    ∷ (77, codes "M")
    ∷ (78, codes "N")
    ∷ (79, codes "O")
    ∷ (80, codes "P")
    ∷ (81, codes "Q")
    ∷ (82, codes "R")
    ∷ (83, codes "S")
    ∷ (84, codes "T")
    ∷ (85, codes "U")
    ∷ (86, codes "V")
    ∷ (87, codes "W")
    ∷ (88, codes "X")
    ∷ (89, codes "Y")
    ∷ (90, codes "Z")
    ∷ (32, codes "SPACE")
    ∷ (256, codes "ESC")
    ∷ (257, codes "ENTER")
    ∷ (258, codes "TAB")
    ∷ (259, codes "BACKSPACE")
    ∷ (260, codes "INSERT")
    ∷ (261, codes "DEL")
    ∷ (262, codes "RIGHT")
    ∷ (263, codes "LEFT")
    ∷ (264, codes "DOWN")
    ∷ (265, codes "UP")
    ∷ (266, codes "PAGE UP")
    ∷ (267, codes "PAGE DOWN")
    ∷ (268, codes "HOME")
    ∷ (269, codes "END")
    ∷ (280, codes "CAPS")
    ∷ (281, codes "SCROLL LOCK")
    ∷ (282, codes "NUM LOCK")
    ∷ (283, codes "PRINT SCREEN")
    ∷ (284, codes "PAUSE")
    ∷ (290, codes "F1")
    ∷ (291, codes "F2")
    ∷ (292, codes "F3")
    ∷ (293, codes "F4")
    ∷ (294, codes "F5")
    ∷ (295, codes "F6")
    ∷ (296, codes "F7")
    ∷ (297, codes "F8")
    ∷ (298, codes "F9")
    ∷ (299, codes "F10")
    ∷ (300, codes "F11")
    ∷ (301, codes "F12")
    ∷ (340, codes "L SHIFT")
    ∷ (341, codes "L CTRL")
    ∷ (342, codes "L ALT")
    ∷ (344, codes "R SHIFT")
    ∷ (345, codes "R CTRL")
    ∷ (346, codes "R ALT")
    ∷ []

-- `default`
abbrev pub unknown : Text
unknown = codes "UNKNOWN"

-- A code is an `int`.
unfoldable pub get_key_name : ℤ → Text
get_key_name (pos key) = elim (find key key_names) [ none ↦ unknown | some name ↦ name ]
get_key_name (negsuc key) = unknown
