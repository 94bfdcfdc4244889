-- ===== src/Renderer/Chat.antt =====
-- The messages that `Renderer::drawChat` of Src/Client/Renderer.cpp shows.
use rtype_ci_cd.Common.{
  ℕ, zero, suc, ◌+◌, ◌-◌, ◌*◌, ◌≡◌, refl, ◌&&◌, none, some, List, [], ◌∷◌, ◌++◌, length,
  length-append, get_elem?, ◌==◌, ltb, if◌then◌else◌, arith,
}
use mathlib.Core.Option
use rtype_ci_cd.Common.Int.{pos, ◌-ℤ◌}
use rtype_ci_cd.Common.Machine.{Machine}
use rtype_ci_cd.Common.Strings.{Text}
use rtype_ci_cd.Renderer.Types.{Draw, text, white}
use rtype_ci_cd.Renderer.Players.{Sight}
use rtype_ci_cd.Renderer.Overlay.{newest_first, chat_y, message_loop}

length-newest_first : (ss : List Text) → length (newest_first ss) ≡ length ss
length-newest_first [] = refl
length-newest_first (s ∷ ss) =
    omega (arith, length-append (newest_first ss) (s ∷ []), length-newest_first ss)

get_elem?-append {ℓ} :
    {A : Type ℓ} (xs ys : List A) (i : ℕ)
    → get_elem? (xs ++ ys) i
      ≡ (if ltb i (length xs) then get_elem? xs i else get_elem? ys (i - length xs))
get_elem?-append [] ys i = ground arith
get_elem?-append (x ∷ xs) ys zero = ground arith
get_elem?-append (x ∷ xs) ys (suc i) = ground (arith, get_elem?-append xs ys i)

get_elem?-cons {ℓ} :
    {A : Type ℓ} (x : A) (xs : List A) (i : ℕ)
    → get_elem? (x ∷ xs) i ≡ (if i == 0 then some x else get_elem? xs (i - 1))
get_elem?-cons x xs zero = refl
get_elem?-cons x xs (suc i) = ground arith

get_elem?-newest_first :
    (ss : List Text) (i : ℕ)
    → get_elem? (newest_first ss) i
      ≡ (if ltb i (length ss) then get_elem? ss (length ss - 1 - i) else none)
get_elem?-newest_first [] i = ground arith
get_elem?-newest_first (s ∷ ss) i = ground (
  arith,
  get_elem?-append (newest_first ss) (s ∷ []) i,
  length-newest_first ss,
  get_elem?-newest_first ss i,
  get_elem?-cons s [] (i - length ss),
  get_elem?-cons s ss (length ss - i),
)

module _ (m : Machine) (f : Sight) where
  -- The line in the row `i`, counted from below.
  abbrev pub chat_line : ℕ → Text → Draw
  chat_line i s = text s (pos 20) (chat_y m f -ℤ pos (i * 25)) 20 white

  get_elem?-message_loop :
      (ss : List Text) (count i : ℕ)
      → get_elem? (message_loop m f count ss) i
        ≡ (if ltb (count + i) 5 then Option.map (chat_line (count + i)) (get_elem? ss i) else none)
  unfolding message_loop
  get_elem?-message_loop [] count i = ground arith
  get_elem?-message_loop (s ∷ ss) count zero = ground arith
  get_elem?-message_loop (s ∷ ss) count (suc i) =
      ground (arith, get_elem?-message_loop ss (suc count) i)

-- Of the messages the last five, or all if there are fewer, are drawn and no other: the newest in the lowest
-- row, and the one that came i before it i rows of 25 pixels above.
pub get_elem?-newest_five :
    (m : Machine) (f : Sight) (ss : List Text) (i : ℕ)
    → get_elem? (message_loop m f 0 (newest_first ss)) i ≡ (
        if ltb i 5 && ltb i (length ss)
        then Option.map (chat_line m f i) (get_elem? ss (length ss - 1 - i))
        else none)
get_elem?-newest_five m f ss i =
    ground (arith, get_elem?-message_loop m f (newest_first ss) 0 i, get_elem?-newest_first ss i)
