-- ===== src/Renderer/Username.antt =====
-- The text field of `Renderer::drawUsernameInput` in Src/Client/Renderer.cpp, and the way of the user name
-- to the server.
use rtype_ci_cd.Common.{
  ℕ, ◌≤◌, ◌≡◌, refl, ap, ◌∙◌, Bool, true, false, inl, inr, ◌&&◌, List, [], ◌∷◌, ◌++◌, length,
  length-append, take, take_all, until_nul, leb, ltb, if◌then◌else◌, Bool-cases, arith,
}
use rtype_ci_cd.Common.Strings.{Text, pop_back}
use rtype_ci_cd.Protocol.Tcp.Messages.{bytes_of, connect}
use rtype_ci_cd.Protocol.Tcp.Roundtrip.{NulFree, string_at, tcp_bytes_of-ReadsBack}
use rtype_ci_cd.Game.Players.{copy_username}
use rtype_ci_cd.Renderer.Menus.{type_username, draw_username_input}

abbrev pub Printable : Text → Type 0
Printable [] = Unit
Printable (c ∷ cs) = (32 ≤ c) × (c ≤ 125) × Printable cs

-- A name that fits `username[32]`, of printable characters.
abbrev pub IsName : Text → Type 0
IsName name = (length name ≤ 31) × Printable name

Printable-append : (s t : Text) → Printable s → Printable t → Printable (s ++ t)
Printable-append [] t h k = k
Printable-append (c ∷ cs) t h k = (h.0, h.1, Printable-append cs t h.2 k)

type_username-IsName :
    (chars : List ℕ) (name : Text) → IsName name → IsName (type_username chars name)
unfolding type_username
type_username-IsName [] name h = h
type_username-IsName (key ∷ keys) name h =
    elim (Bool-cases (leb 32 key && leb key 125 && ltb (length name) 31)) [
      | inl fits ↦
          rw (type_username, fits)
            (type_username-IsName keys (name ++ key ∷ []) (
              (let size = length-append name (key ∷ []) in ground (arith, size, fits)),
              Printable-append name (key ∷ []) h.1 (ground (arith, fits), ground (arith, fits), tt),
            ))
      | inr other ↦ rw (type_username, other) (type_username-IsName keys name h)
    ]

pop_back-Printable : (s : Text) → Printable s → Printable (pop_back s)
pop_back-Printable [] h = tt
pop_back-Printable (c ∷ []) h = tt
pop_back-Printable (c ∷ d ∷ cs) h = (h.0, h.1, pop_back-Printable (d ∷ cs) h.2)

length-pop_back : (s : Text) → length (pop_back s) ≤ length s
length-pop_back [] = omega arith
length-pop_back (c ∷ []) = omega arith
length-pop_back (c ∷ d ∷ cs) = omega (arith, length-pop_back (d ∷ cs))

Printable-NulFree : (s : Text) → Printable s → NulFree s
Printable-NulFree [] h = tt
Printable-NulFree (c ∷ cs) h = ((λ e. omega (arith, e, h.0)), Printable-NulFree cs h.2)

until_nul-NulFree : (s : Text) → NulFree s → until_nul s ≡ s
until_nul-NulFree [] h = refl
until_nul-NulFree (c ∷ cs) h = ground (arith, h.0, until_nul-NulFree cs h.1)

edited-IsName : (b : Bool) (s : Text) → IsName s → IsName (if b then pop_back s else s)
edited-IsName true s h = (omega (arith, h.0, length-pop_back s), pop_back-Printable s h.1)
edited-IsName false s h = h

-- Whatever is typed into the field, a name of at most 31 printable characters becomes one again. It is
-- sent whole: what the server reads from the connect request, and what it copies to the player, is the
-- name.
pub draw_username_input-IsName :
    (chars : List ℕ) (backspace enter : Bool) (name : Text) (rest : List ℕ)
    → IsName name
    → let typed = (draw_username_input chars backspace enter name).0 in
      IsName typed
      × (string_at 32 1 (bytes_of (connect (copy_username typed)) ++ rest) ≡ typed)
      × (copy_username typed ≡ typed)
unfolding draw_username_input copy_username
draw_username_input-IsName chars backspace enter name rest h =
    let typed = (draw_username_input chars backspace enter name).0 in
    let good =
      edited-IsName backspace (type_username chars name) (type_username-IsName chars name h) in
    let nul_free = Printable-NulFree typed good.1 in
    let copied : copy_username typed ≡ typed =
      ap (take 31) (until_nul-NulFree typed nul_free) ∙ take_all 31 typed good.0 in
    (
      good,
      ap (λ (s : Text). string_at 32 1 (bytes_of (connect s) ++ rest)) copied
          ∙ (tcp_bytes_of-ReadsBack (connect typed) rest (nul_free, good.0)).1.1,
      copied,
    )
