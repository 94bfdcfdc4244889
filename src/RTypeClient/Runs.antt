-- ===== src/RTypeClient/Runs.antt =====
-- Frames of `RTypeClient::tick` one after the other: the loop of `ClientManager::run` while a match lasts.
use rtype_ci_cd.Common.{
  ◌≡◌, refl, sym, subst, ◌∙◌, inl, inr, ◌||◌, Bool, true, false, Option, none, some, List, [], ◌∷◌,
  ◌++◌, Bool-cases, if◌then◌else◌, arith,
}
use rtype_ci_cd.Common.Int.{ℤ, pos, eq_ℤ}
use rtype_ci_cd.Common.Machine.{Machine}
use rtype_ci_cd.Common.Strings.{Text}
use rtype_ci_cd.Renderer.Menus.{
  Screen, PauseMenuChoice, draw_pause_menu, draw_options_menu, remap_key,
}
use rtype_ci_cd.RTypeClient.Types.{
  InGameStatus, playing, paused, options, quitting, kicked, game_over, victory, RTypeClient, Effect,
}
use rtype_ci_cd.RTypeClient.Frame.{Frame, press_enter, play, run_case, choose, menu_case, tick}
use rtype_ci_cd.RTypeClient.Status.{overtakes, update-Keeps}
use rtype_ci_cd.RTypeClient.Session.{IsBound, insert-IsBound, Follows, play-Follows}

-- What the status is after a frame, by what it was.
abbrev pub may_become : InGameStatus → InGameStatus → Bool
may_become playing victory = false
may_become playing _ = true
may_become paused playing = true
may_become paused paused = true
may_become paused options = true
may_become paused quitting = true
may_become options options = true
may_become options paused = true
may_become options quitting = true
may_become game_over game_over = true
may_become game_over quitting = true
may_become game_over kicked = true
may_become quitting quitting = true
may_become kicked kicked = true
may_become victory victory = true
may_become victory quitting = true
may_become victory game_over = true
may_become victory kicked = true
may_become _ _ = false

-- What the status is before the menus of the frame.
abbrev may_run : InGameStatus → InGameStatus → Bool
may_run playing t = overtakes playing t || overtakes paused t
may_run paused paused = true
may_run paused playing = true
may_run options options = true
may_run options paused = true
may_run game_over t = overtakes game_over t || overtakes quitting t
may_run victory t = overtakes victory t || overtakes quitting t
may_run quitting quitting = true
may_run kicked kicked = true
may_run _ _ = false

-- What the menus make of it.
abbrev may_choose : InGameStatus → InGameStatus → Bool
may_choose paused paused = true
may_choose paused options = true
may_choose paused quitting = true
may_choose options options = true
may_choose options paused = true
may_choose playing playing = true
may_choose game_over game_over = true
may_choose victory victory = true
may_choose quitting quitting = true
may_choose kicked kicked = true
may_choose _ _ = false

frame_table :
    (s t u : InGameStatus) → may_run s t ≡ true → may_choose t u ≡ true → may_become s u ≡ true
frame_table playing t u h k = ground arith
frame_table paused t u h k = ground arith
frame_table options t u h k = ground arith
frame_table quitting t u h k = ground arith
frame_table kicked t u h k = ground arith
frame_table game_over t u h k = ground arith
frame_table victory t u h k = ground arith

pub remap_key-IsBound :
    (m : Machine) (s : Screen) (key : ℤ) (remap : Option Text) (kb : List (Text × ℤ))
    → IsBound kb
    → IsBound (remap_key m s key remap kb).1
unfolding remap_key
remap_key-IsBound m s key none kb h = h
remap_key-IsBound m s key (some action) kb h = elim (Bool-cases (eq_ℤ key (pos 0))) [
  | inl no_key ↦ rw no_key h
  | inr a_key ↦ rw a_key (insert-IsBound action key kb h)
]

-- Each status may follow the one before.
abbrev pub IsPath : InGameStatus → List InGameStatus → Type 0
IsPath s [] = Unit
IsPath s (t ∷ ts) = (may_become s t ≡ true) × IsPath t ts

module _ (m : Machine) where
  abbrev Steps : InGameStatus → RTypeClient → Option (RTypeClient × List Effect) → Type 0
  Steps s c none = ⊥
  Steps s c (some r) = (may_run s r.0.status ≡ true) × (r.0.keybinds ≡ c.keybinds)

  Follows-Steps :
      (b : Bool) (s : InGameStatus) (c : RTypeClient) (o : Option (RTypeClient × List Effect))
      → s ≡ playing
      → Follows m (if b then paused else s) c o
      → Steps playing c o
  Follows-Steps b s c none e h = h
  Follows-Steps b s c (some r) e h = (ground (arith, e, h.0), h.1)

  leave_or :
      (s : InGameStatus) (b : Bool) (t : InGameStatus)
      → overtakes (if b then quitting else s) t ≡ true
      → overtakes s t || overtakes quitting t ≡ true
  leave_or s b t h = ground (arith, h)

  run_case-Steps :
      (s : InGameStatus) (f : Frame) (c : RTypeClient)
      → c.status ≡ s
      → IsBound c.keybinds
      → Steps s c (run_case m s f c)
  unfolding run_case
  run_case-Steps playing f c e h =
      Follows-Steps f.keys.escape_pressed c.status c (play m f c) e (play-Follows m f c h)
  run_case-Steps paused f c e h = (ground (arith, e), ground arith)
  run_case-Steps options f c e h = (ground (arith, e), ground arith)
  run_case-Steps game_over f c e h =
      let kept = update-Keeps m f.messages f.update_time f.arrivals (press_enter f.keys c) in
      (
        leave_or game_over f.keys.enter_pressed _ (ground (arith, e, kept.status)),
        kept.keybinds ∙ ground arith,
      )
  run_case-Steps victory f c e h =
      let kept = update-Keeps m f.messages f.update_time f.arrivals (press_enter f.keys c) in
      (
        leave_or victory f.keys.enter_pressed _ (ground (arith, e, kept.status)),
        kept.keybinds ∙ ground arith,
      )
  run_case-Steps quitting f c e h = (ground (arith, e), ground arith)
  run_case-Steps kicked f c e h = (ground (arith, e), ground arith)

  choose-steps :
      (choice : PauseMenuChoice) (c : RTypeClient)
      → c.status ≡ paused
      → IsBound c.keybinds
      → (may_choose paused (choose m choice c).0.status ≡ true)
        × IsBound (choose m choice c).0.keybinds
  choose-steps PauseMenuChoice.no_choice c e h = (ground (arith, e), h)
  choose-steps PauseMenuChoice.options c e h = (refl, h)
  choose-steps PauseMenuChoice.quit c e h = (refl, h)

  menu_case-steps :
      (s : InGameStatus) (f : Frame) (remap : Option Text) (c : RTypeClient)
      → c.status ≡ s
      → IsBound c.keybinds
      → (may_choose s (menu_case m s f remap c).0.status ≡ true)
        × IsBound (menu_case m s f remap c).0.keybinds
  unfolding menu_case draw_options_menu
  menu_case-steps playing f remap c e h = (ground (arith, e), h)
  menu_case-steps paused f remap c e h = choose-steps (draw_pause_menu m f.screen) c e h
  menu_case-steps options f remap c e h =
      (ground arith, remap_key-IsBound m f.screen f.key _ c.keybinds h)
  menu_case-steps game_over f remap c e h = (ground (arith, e), h)
  menu_case-steps victory f remap c e h = (ground (arith, e), h)
  menu_case-steps quitting f remap c e h = (ground (arith, e), h)
  menu_case-steps kicked f remap c e h = (ground (arith, e), h)

  -- The frame returns, its status may follow that before, and the actions are bound again.
  abbrev pub Returns : RTypeClient → Option (RTypeClient × Option Text × List Effect) → Type 0
  Returns c none = ⊥
  Returns c (some (d, waiting, effects)) =
      (may_become c.status d.status ≡ true) × IsBound d.keybinds

  tick_menu :
      (f : Frame) (remap : Option Text) (c : RTypeClient) (o : Option (RTypeClient × List Effect))
      → IsBound c.keybinds
      → Steps c.status c o
      → Returns c (elim o [
        | none ↦ none
        | some (next, effects) ↦
            let (last, waiting, effects') = menu_case m next.status f remap next in
            some (last, waiting, effects ++ effects')
      ])
  tick_menu f remap c none h k = k
  tick_menu f remap c (some (next, effects)) h k =
      let chosen = menu_case-steps next.status f remap next refl (subst IsBound (sym k.1) h) in
      (frame_table c.status next.status _ k.0 chosen.0, chosen.1)

  pub tick-Returns :
      (f : Frame) (remap : Option Text) (c : RTypeClient)
      → IsBound c.keybinds
      → Returns c (tick m f remap c)
  unfolding tick
  tick-Returns f remap c h =
      tick_menu f remap c (run_case m c.status f c) h (run_case-Steps c.status f c refl h)

  -- The statuses after each of the frames, or nothing where one throws.
  unfoldable pub run : List Frame → Option Text → RTypeClient → Option (List InGameStatus)
  run [] remap c = some []
  run (f ∷ fs) remap c = elim (tick m f remap c) [
    | none ↦ none
    | some (d, waiting, effects) ↦ elim (run fs waiting d) [
      | none ↦ none
      | some statuses ↦ some (d.status ∷ statuses)
    ]
  ]

  run_step :
      (fs : List Frame) (c : RTypeClient) (o : Option (RTypeClient × Option Text × List Effect))
      → Returns c o
      → ((remap : Option Text) (d : RTypeClient)
          → IsBound d.keybinds
          → (ts : List InGameStatus) × (run fs remap d ≡ some ts) × IsPath d.status ts)
      → (ts : List InGameStatus) × (elim o [
        | none ↦ none
        | some (d, waiting, effects) ↦ elim (run fs waiting d) [
          | none ↦ none
          | some statuses ↦ some (d.status ∷ statuses)
        ]
      ]
          ≡ some ts)
        × IsPath c.status ts
  run_step fs c none h ih = elim h [ ]
  run_step fs c (some (d, waiting, effects)) h ih =
      let (ts, ran, path) = ih waiting d h.1 in (d.status ∷ ts, rw ran refl, (h.0, path))

  -- From a client whose four directions are bound, any frames return, whatever is pressed, clicked and
  -- received in them: no look-up of a key throws. The status passes only from playing to all but victory,
  -- between playing, paused and options, from there to quitting, and from the end of the match to
  -- quitting or kicked, which it never leaves.
  pub run-IsPath :
      (fs : List Frame) (remap : Option Text) (c : RTypeClient)
      → IsBound c.keybinds
      → (ts : List InGameStatus) × (run fs remap c ≡ some ts) × IsPath c.status ts
  unfolding run
  run-IsPath [] remap c h = ([], refl, tt)
  run-IsPath (f ∷ fs) remap c h =
      run_step fs c (tick m f remap c) (tick-Returns f remap c h) (run-IsPath fs)
