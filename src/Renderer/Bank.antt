-- ===== src/Renderer/Bank.antt =====
-- The bank of the ships in `Renderer::draw`, which chooses their picture.
use rtype_ci_cd.Common.{
  ℕ, ◌≡◌, Bool, true, false, inl, inr, List, [], ◌∷◌, Bool-cases, if◌then◌else◌, ◌==◌, arith,
}
use rtype_ci_cd.Common.Int.{ℤ}
use rtype_ci_cd.Common.Machine.{Machine, Float}
use rtype_ci_cd.Common.Floats.{zero_f, two, four, fifteen, tenth, minus_tenth}
use rtype_ci_cd.Common.Maps.{find, insert}
use rtype_ci_cd.Common.Strings.{Text}
use rtype_ci_cd.RTypeClient.Types.{Position, RTypeClient}
use rtype_ci_cd.Renderer.Types.{Texture, Renderer, new_renderer}
use rtype_ci_cd.ConfigManager.{up_key, down_key}
use rtype_ci_cd.Renderer.Players.{
  Sight, key_or, key_up, key_down, target_bank, ease, bank_of, draw_players,
}
use rtype_ci_cd.Renderer.Scene.{draw}

-- What IEEE 754 says of comparisons, also of values that are no numbers.
pub record HasOrder (m : Machine) : Type 0 where
  pub lt_irrefl : (a : Float) → m.lt a a ≡ false
  pub lt_trans : (a b c : Float) → m.lt a b ≡ true → m.lt b c ≡ true → m.lt a c ≡ true
  pub zero_lt_two : m.lt zero_f two ≡ true
  pub two_lt_four : m.lt two four ≡ true
  -- Adding what is not negative does not fall below a bound, and taking it does not rise above one.
  pub add_bound :
      (a b s : Float) → m.lt s zero_f ≡ false → m.lt a b ≡ false → m.lt (m.add a s) b ≡ false
  pub sub_bound :
      (a b s : Float) → m.lt s zero_f ≡ false → m.lt b a ≡ false → m.lt b (m.sub a s) ≡ false
  pub scale_bound : (t : Float) → m.lt t zero_f ≡ false → m.lt (m.mul fifteen t) zero_f ≡ false

module _ (m : Machine) where
  -- Not below 0, and not above 4.
  abbrev pub IsLevel : Float → Type 0
  IsLevel b = (m.lt b zero_f ≡ false) × (m.lt four b ≡ false)

  abbrev pub AllLevel : List (ℕ × Float) → Type 0
  AllLevel [] = Unit
  AllLevel ((id, b) ∷ bs) = IsLevel b × AllLevel bs

  -- What is above 4 is above a target, and what is below 0 is below it.
  abbrev IsTarget : Float → Type 0
  IsTarget t =
      IsLevel t
      × ((x : Float) → m.lt four x ≡ true → m.lt t x ≡ true)
      × ((x : Float) → m.lt x zero_f ≡ true → m.lt x t ≡ true)

  either-IsTarget :
      (b : Bool) (s t : Float) → IsTarget s → IsTarget t → IsTarget (if b then s else t)
  either-IsTarget true s t h k = h
  either-IsTarget false s t h k = k

module _ (m : Machine) (laws : HasOrder m) where
  asym : (a b : Float) → m.lt a b ≡ true → m.lt b a ≡ false
  asym a b h = elim (Bool-cases (m.lt b a)) [
    | inl k ↦ cc (laws.lt_trans a b a h k, laws.lt_irrefl a)
    | inr k ↦ k
  ]

  zero_lt_four : m.lt zero_f four ≡ true
  zero_lt_four = laws.lt_trans zero_f two four laws.zero_lt_two laws.two_lt_four

  zero-IsTarget : IsTarget m zero_f
  zero-IsTarget = (
    (laws.lt_irrefl zero_f, asym zero_f four zero_lt_four),
    (λ x h. laws.lt_trans zero_f four x zero_lt_four h),
    λ x h. h,
  )

  two-IsTarget : IsTarget m two
  two-IsTarget = (
    (asym zero_f two laws.zero_lt_two, asym two four laws.two_lt_four),
    (λ x h. laws.lt_trans two four x laws.two_lt_four h),
    λ x h. laws.lt_trans x zero_f two h laws.zero_lt_two,
  )

  four-IsTarget : IsTarget m four
  four-IsTarget = (
    (asym zero_f four zero_lt_four, laws.lt_irrefl four),
    (λ x h. h),
    λ x h. laws.lt_trans x zero_f four h zero_lt_four,
  )

  target_bank-IsTarget :
      (f : Sight) (kb : List (Text × ℤ)) (me id : ℕ) (p : Position)
      → IsTarget m (target_bank m f kb me id p)
  unfolding target_bank
  target_bank-IsTarget f kb me id p =
      let by_speed =
        either-IsTarget m (m.lt p.vy minus_tenth) four (if m.lt tenth p.vy then zero_f else two)
          four-IsTarget
          (either-IsTarget m (m.lt tenth p.vy) zero_f two zero-IsTarget two-IsTarget) in
      let up = f.down (key_or up_key key_up kb) in
      let down = f.down (key_or down_key key_down kb) in
      let by_key =
        either-IsTarget m up four (if down then zero_f else two) four-IsTarget
          (either-IsTarget m down zero_f two zero-IsTarget two-IsTarget) in
      either-IsTarget m (id == me) _ _ by_key by_speed

  ease-IsLevel :
      (f : Sight) (kb : List (Text × ℤ)) (me : ℕ) (current target : Float)
      → m.lt f.frame_time zero_f ≡ false
      → IsLevel m current
      → IsTarget m target
      → IsLevel m (ease m f kb me current target)
  unfolding ease
  ease-IsLevel f kb me current target ft h t =
      let speed = m.mul fifteen f.frame_time in
      let low = laws.add_bound current zero_f speed (laws.scale_bound f.frame_time ft) h.0 in
      let high = laws.sub_bound current four speed (laws.scale_bound f.frame_time ft) h.1 in
      ground (arith, t.1 (m.add current speed), t.2 (m.sub current speed))

  insert-AllLevel :
      (id : ℕ) (b : Float) (bs : List (ℕ × Float))
      → IsLevel m b
      → AllLevel m bs
      → AllLevel m (insert id b bs)
  unfolding insert
  insert-AllLevel id b [] h k = (h, tt)
  insert-AllLevel id b ((j, c) ∷ bs) h k = ground (arith, insert-AllLevel id b bs h k.1)

  bank_of-IsLevel :
      (f : Sight) (kb : List (Text × ℤ)) (me id : ℕ) (bs : List (ℕ × Float))
      → AllLevel m bs
      → IsLevel m (bank_of m f kb me id bs)
  unfolding find
  bank_of-IsLevel f kb me id [] h = two-IsTarget.0
  bank_of-IsLevel f kb me id ((j, b) ∷ bs) h = ground (arith, bank_of-IsLevel f kb me id bs h.1)

  draw_players-AllLevel :
      (f : Sight) (kb : List (Text × ℤ)) (me : ℕ) (textures : List (ℕ × Texture))
      (bs : List (ℕ × Float)) (ps : List (ℕ × Position))
      → m.lt f.frame_time zero_f ≡ false
      → AllLevel m bs
      → AllLevel m (draw_players m f kb me textures bs ps).0
  unfolding draw_players
  draw_players-AllLevel f kb me textures bs [] ft h = h
  draw_players-AllLevel f kb me textures bs ((id, p) ∷ ps) ft h =
      let bank = ease m f kb me (bank_of m f kb me id bs) (target_bank m f kb me id p) in
      draw_players-AllLevel f kb me textures (insert id bank bs) ps ft (
        insert-AllLevel id bank bs
          (ease-IsLevel f kb me (bank_of m f kb me id bs) (target_bank m f kb me id p) ft
            (bank_of-IsLevel f kb me id bs h) (target_bank-IsTarget f kb me id p))
          h)

-- The frames of a match, one after the other.
abbrev pub draw_all : Machine → List (Sight × RTypeClient) → Renderer → Renderer
draw_all m [] r = r
draw_all m ((f, c) ∷ frames) r = draw_all m frames (draw m f c r).0

abbrev pub TimesForward : Machine → List (Sight × RTypeClient) → Type 0
TimesForward m [] = Unit
TimesForward m ((f, c) ∷ frames) = (m.lt f.frame_time zero_f ≡ false) × TimesForward m frames

draw_all-AllLevel :
    (m : Machine) (laws : HasOrder m) (frames : List (Sight × RTypeClient)) (r : Renderer)
    → TimesForward m frames
    → AllLevel m r.player_bank
    → AllLevel m (draw_all m frames r).player_bank
unfolding draw
draw_all-AllLevel m laws [] r fs h = h
draw_all-AllLevel m laws ((f, c) ∷ frames) r fs h =
    draw_all-AllLevel m laws frames (draw m f c r).0 fs.1 (
      draw_players-AllLevel m laws f c.keybinds c.my_player_id r.textures r.player_bank c.players
        fs.0 h)

-- Under the laws of comparison, over any frames that take no negative time, whatever players they show and
-- keys they read: no ship's bank, from which its picture is counted, falls below 0 or rises above 4.
pub draw-AllLevel :
    (m : Machine) (laws : HasOrder m) (load : Text → Texture) (height : ℕ)
    (frames : List (Sight × RTypeClient))
    → TimesForward m frames
    → AllLevel m (draw_all m frames (new_renderer m load height)).player_bank
unfolding new_renderer
draw-AllLevel m laws load height frames fs =
    draw_all-AllLevel m laws frames (new_renderer m load height) fs tt
