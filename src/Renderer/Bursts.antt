-- ===== src/Renderer/Bursts.antt =====
-- The explosions of Src/Client/Renderer.cpp, over the moments of a match.
use rtype_ci_cd.Common.{
  ℕ, suc, ◌<◌, inl, inr, Bool-cases, ◌≡◌, refl, sym, subst, ap, ◌∙◌, true, false, some, List, [],
  ◌∷◌, ◌++◌, map, if◌then◌else◌, arith,
}
use mathlib.Core.List.{append_assoc, append-nil}
use rtype_ci_cd.Common.Machine.{Machine, Float, Double}
use rtype_ci_cd.Common.Floats.{half_double}
use rtype_ci_cd.Common.Maps.{find}
use rtype_ci_cd.Common.Strings.{Text, codes}
use rtype_ci_cd.RTypeClient.Types.{RTypeClient}
use rtype_ci_cd.Renderer.Types.{Texture, Explosion, Draw, Renderer, new_renderer, add_explosion}
use rtype_ci_cd.Renderer.Players.{Sight}
use rtype_ci_cd.Renderer.Entities.{draw_explosion, explosion_loop, draw_explosions}
use rtype_ci_cd.Renderer.Scene.{draw}

-- An explosion that is added, or a frame.
pub data Moment : Type 0 where
  burst : Float → Float → Double → Moment
  frame : Sight → RTypeClient → Moment

-- A time of a clock, which does not run below 0: the bit pattern of a finite double that is not negative.
abbrev pub IsTime : Double → Type 0
IsTime t = t < 0x7ff0000000000000

module _ (m : Machine) where
  abbrev pub run : List Moment → Renderer → Renderer
  run [] r = r
  run (burst x y t ∷ ms) r = run ms (add_explosion x y t r)
  run (frame f c ∷ ms) r = run ms (draw m f c r).0

  -- The explosions that are at most half a second old at a time.
  abbrev pub drop_old : Double → List Explosion → List Explosion
  drop_old t [] = []
  drop_old t (e ∷ es) =
      if m.lt_double half_double (m.sub_double t e.start_time)
      then drop_old t es
      else e ∷ drop_old t es

  -- Among such times: what is too old at one is too old at one that is not before it.
  abbrev pub Ages : Type 0
  Ages =
      (s t u : Double)
      → IsTime s
      → IsTime t
      → IsTime u
      → m.lt_double u t ≡ false
      → m.lt_double half_double (m.sub_double t s) ≡ true
      → m.lt_double half_double (m.sub_double u s) ≡ true

  -- The clock gives the time `t` at each round of the loop of a frame.
  abbrev pub ReadsAt : Sight → Double → Type 0
  ReadsAt f t = (i : ℕ) → f.explosion_time i ≡ t

  -- Each explosion begins at a time of the clock, and each frame reads one, which is not after `u`.
  abbrev pub Before : Double → List Moment → Type 0
  Before u [] = Unit
  Before u (burst x y t ∷ ms) = IsTime t × Before u ms
  Before u (frame f c ∷ ms) =
      ((t : Double) × ReadsAt f t × IsTime t × (m.lt_double u t ≡ false)) × Before u ms

abbrev AllTimes : List Explosion → Type 0
AllTimes [] = Unit
AllTimes (e ∷ es) = IsTime e.start_time × AllTimes es

AllTimes-append : (es fs : List Explosion) → AllTimes es → AllTimes fs → AllTimes (es ++ fs)
AllTimes-append [] fs h k = k
AllTimes-append (e ∷ es) fs h k = (h.0, AllTimes-append es fs h.1 k)

AllTimes-drop_old :
    (m : Machine) (t : Double) (es : List Explosion) → AllTimes es → AllTimes (drop_old m t es)
AllTimes-drop_old m t [] h = tt
AllTimes-drop_old m t (e ∷ es) h =
    elim (Bool-cases (m.lt_double half_double (m.sub_double t e.start_time))) [
      | inl old ↦ rw old (AllTimes-drop_old m t es h.1)
      | inr young ↦ rw young (h.0, AllTimes-drop_old m t es h.1)
    ]

-- All that were added.
abbrev pub bursts : List Moment → List Explosion
bursts [] = []
bursts (burst x y t ∷ ms) = record { x = x; y = y; start_time = t } ∷ bursts ms
bursts (frame f c ∷ ms) = bursts ms

module _ (m : Machine) (texture : Texture) where
  abbrev pub draw_at : Double → Explosion → Draw
  draw_at t e = draw_explosion m texture (m.sub_double t e.start_time) e

  explosion_loop_lem :
      (f : Sight) (t : Double) (i : ℕ) (es : List Explosion)
      → ReadsAt m f t
      → explosion_loop m f texture i es ≡ (drop_old m t es, map (draw_at t) (drop_old m t es))
  unfolding explosion_loop
  explosion_loop_lem f t i [] h = refl
  explosion_loop_lem f t i (e ∷ es) h = ground (arith, h i, explosion_loop_lem f t (suc i) es h)

  draw_explosions_lem :
      (f : Sight) (t : Double) (r : Renderer)
      → find 4 r.textures ≡ some texture
      → ReadsAt m f t
      → draw_explosions m f r.textures r.explosions
        ≡ (drop_old m t r.explosions, map (draw_at t) (drop_old m t r.explosions))
  unfolding draw_explosions
  draw_explosions_lem f t r e h = rw (e, draw_explosions) (explosion_loop_lem f t 0 r.explosions h)

  drop_old-drop_old :
      (t u : Double) (es rest : List Explosion)
      → Ages m
      → IsTime t
      → IsTime u
      → AllTimes es
      → m.lt_double u t ≡ false
      → drop_old m u (drop_old m t es ++ rest) ≡ drop_old m u (es ++ rest)
  drop_old-drop_old t u [] rest ages now last times h = refl
  drop_old-drop_old t u (e ∷ es) rest ages now last times h =
      let ih = drop_old-drop_old t u es rest ages now last times.1 h in
      let older = ages e.start_time t u times.0 now last h in ground (arith, ih, older)

  run-textures : (ms : List Moment) (r : Renderer) → (run m ms r).textures ≡ r.textures
  unfolding draw add_explosion
  run-textures [] r = refl
  run-textures (burst x y t ∷ ms) r = run-textures ms (add_explosion x y t r)
  run-textures (frame f c ∷ ms) r = run-textures ms (draw m f c r).0

  drop_old-run :
      (u : Double) (ms : List Moment) (r : Renderer)
      → Ages m
      → IsTime u
      → AllTimes r.explosions
      → find 4 r.textures ≡ some texture
      → Before m u ms
      → drop_old m u (run m ms r).explosions ≡ drop_old m u (r.explosions ++ bursts ms)
  unfolding draw add_explosion
  drop_old-run u [] r ages last times e h = ap (drop_old m u) (sym (append-nil r.explosions))
  drop_old-run u (burst x y t ∷ ms) r ages last times e h =
      drop_old-run u ms (add_explosion x y t r) ages last
        (AllTimes-append r.explosions (record { x = x; y = y; start_time = t } ∷ []) times
          (h.0, tt))
        e h.1
      ∙ ap (drop_old m u)
          (append_assoc r.explosions (record { x = x; y = y; start_time = t } ∷ []) (bursts ms))
  drop_old-run u (frame f c ∷ ms) r ages last times e ((t, reads, now, later), h) =
      let drawn = draw_explosions_lem f t r e reads in
      drop_old-run u ms (draw m f c r).0 ages last
        (subst (λ (d : List Explosion × List Draw). AllTimes d.0) (sym drawn)
          (AllTimes-drop_old m t r.explosions times))
        e h
      ∙ (ap (λ (d : List Explosion × List Draw). drop_old m u (d.0 ++ bursts ms)) drawn
          ∙ drop_old-drop_old t u r.explosions (bursts ms) ages now last times later)

-- Times are finite doubles that are not negative, among which what is too old at one is too old at each that
-- is not before it. Over any moments of a new renderer, with explosions added and frames drawn in any order,
-- where each frame reads one time and none of them is after the time `u`: a frame at `u` keeps and draws,
-- each once, in order and in the picture of its age, exactly those of all the explosions added that are then
-- at most half a second old.
pub draw_explosions-run :
    (m : Machine) (load : Text → Texture) (height : ℕ) (ms : List Moment) (f : Sight) (u : Double)
    → Ages m
    → IsTime u
    → Before m u ms
    → ReadsAt m f u
    → let r = run m ms (new_renderer m load height) in
      let young = drop_old m u (bursts ms) in
      draw_explosions m f r.textures r.explosions
      ≡ (young, map (draw_at m (load (codes "Assets/r-typesheet1.gif")) u) young)
unfolding new_renderer find
draw_explosions-run m load height ms f u ages last h reads =
    let r0 = new_renderer m load height in
    let texture = load (codes "Assets/r-typesheet1.gif") in
    let r = run m ms r0 in
    draw_explosions_lem m texture f u r
      (ap (λ (ts : List (ℕ × Texture)). find 4 ts) (run-textures m texture ms r0)) reads
    ∙ ap (λ (es : List Explosion). (es, map (draw_at m texture u) es))
        (drop_old-run m texture u ms r0 ages last tt refl h)
