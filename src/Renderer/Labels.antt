-- ===== src/Renderer/Labels.antt =====
-- The names of the keys that Src/Client/Renderer.cpp shows.
use rtype_ci_cd.Common.{
  ℕ, ◌≡◌, ◌≢◌, refl, sym, ap, ◌∙◌, ◌⊎◌, inl, inr, Bool, true, ◌&&◌, not, Option, none, some, List,
  [], ◌∷◌, arith,
}
use rtype_ci_cd.Common.Int.{ℤ, pos, negsuc}
use rtype_ci_cd.Common.Maps.{find}
use rtype_ci_cd.Common.Strings.{Text, text_eq, text_eq_iff}
use rtype_ci_cd.Renderer.KeyNames.{key_names, unknown, get_key_name}

-- No text of the list is this one, and no two are the same.
abbrev is_absent : Text → List (ℕ × Text) → Bool
is_absent s [] = true
is_absent s ((k, t) ∷ m) = not (text_eq s t) && is_absent s m

abbrev are_distinct : List (ℕ × Text) → Bool
are_distinct [] = true
are_distinct ((k, t) ∷ m) = is_absent t m && are_distinct m

is_absent-find : (s : Text) (m : List (ℕ × Text)) (k : ℕ) → is_absent s m ≡ true → find k m ≢ some s
unfolding find
is_absent-find s [] k h e = cc
is_absent-find s ((j, t) ∷ m) k h e = ground (arith, is_absent-find s m k, text_eq_iff s t)

are_distinct-find :
    (m : List (ℕ × Text)) (i k : ℕ) (s : Text)
    → are_distinct m ≡ true
    → find i m ≡ some s
    → find k m ≡ some s
    → i ≡ k
unfolding find
are_distinct-find [] i k s h p q = cc
are_distinct-find ((j, t) ∷ m) i k s h p q =
    ground (arith, are_distinct-find m i k s, is_absent-find t m i, is_absent-find t m k)

key_names-are_distinct : are_distinct key_names ≡ true
unfolding text_eq
key_names-are_distinct = refl

abbrev shown : Option Text → Text
shown none = unknown
shown (some name) = name

shown-find :
    (i k : ℕ) (a b : Option Text)
    → find i key_names ≡ a
    → find k key_names ≡ b
    → shown a ≡ shown b
    → (i ≡ k) ⊎ (shown a ≡ unknown)
shown-find i k none b p q e = inr refl
shown-find i k (some s) none p q e = inr e
shown-find i k (some s) (some t) p q e =
    inl (are_distinct-find key_names i k s key_names-are_distinct p (q ∙ ap some (sym e)))

-- Two keys that are shown by one name are the same, or the name is UNKNOWN.
pub get_key_name-distinct :
    (i k : ℤ) → get_key_name i ≡ get_key_name k → (i ≡ k) ⊎ (get_key_name i ≡ unknown)
unfolding get_key_name
get_key_name-distinct (pos i) (pos k) e =
    elim (shown-find i k (find i key_names) (find k key_names) refl refl e) [
      | inl p ↦ inl (ap pos p)
      | inr p ↦ inr p
    ]
get_key_name-distinct (pos i) (negsuc k) e = inr e
get_key_name-distinct (negsuc i) k e = inr refl
