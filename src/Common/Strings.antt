-- ===== src/Common/Strings.antt =====
-- `std::string` as the list of its characters, and `std::map<std::string, A>`.
use Prim.Native.Char.{code}
use Prim.Native.String.{String}
use rtype_ci_cd.Common.{
  ℕ, ◌≡◌, refl, ◌↔◌, ◌&&◌, Bool, true, false, Option, none, some, List, [], ◌∷◌, ◌==◌, ltb,
  if◌then◌else◌, arith,
}

abbrev pub Text : Type 0
Text = List ℕ

-- The characters of a literal.
abbrev pub codes : String → Text
codes String.[] = []
codes (String.◌∷◌ c s) = code c ∷ codes s

unfoldable pub text_eq : Text → Text → Bool
text_eq [] [] = true
text_eq (a ∷ s) (b ∷ t) = a == b && text_eq s t
text_eq [] (b ∷ t) = false
text_eq (a ∷ s) [] = false

pub text_eq_iff : (s t : Text) → (text_eq s t ≡ true) ↔ (s ≡ t)
unfolding text_eq
text_eq_iff [] [] = ground arith
text_eq_iff (a ∷ s) (b ∷ t) = ground (arith, text_eq_iff s t)
text_eq_iff [] (b ∷ t) = ground arith
text_eq_iff (a ∷ s) [] = ground arith

-- The order of `std::string`.
unfoldable pub text_lt : Text → Text → Bool
text_lt [] [] = false
text_lt [] (b ∷ t) = true
text_lt (a ∷ s) [] = false
text_lt (a ∷ s) (b ∷ t) = if a == b then text_lt s t else ltb a b

module _ {ℓ} {A : Type ℓ} where
  unfoldable pub find_text : Text → List (Text × A) → Option A
  find_text k [] = none
  find_text k ((j, a) ∷ m) = if text_eq j k then some a else find_text k m

  unfoldable pub insert_text : Text → A → List (Text × A) → List (Text × A)
  insert_text k a [] = (k, a) ∷ []
  insert_text k a ((j, b) ∷ m) =
      if text_eq j k
      then (k, a) ∷ m
      else if text_lt k j
      then (k, a) ∷ (j, b) ∷ m
      else (j, b) ∷ insert_text k a m

  pub find_text-insert_text :
      (i k : Text) (a : A) (m : List (Text × A))
      → find_text i (insert_text k a m) ≡ (if text_eq k i then some a else find_text i m)
  unfolding find_text insert_text
  find_text-insert_text i k a [] = refl
  find_text-insert_text i k a ((j, b) ∷ m) =
      ground
        (arith, find_text-insert_text i k a m, text_eq_iff j k, text_eq_iff j i, text_eq_iff k i)

-- `pop_back`, of a text that is not empty.
abbrev pub pop_back : Text → Text
pop_back [] = []
pop_back (c ∷ []) = []
pop_back (c ∷ d ∷ cs) = c ∷ pop_back (d ∷ cs)

-- `!empty()`
abbrev pub not_empty : Text → Bool
not_empty [] = false
not_empty (c ∷ cs) = true
