-- ===== src/RTypeClient/Session.antt =====
-- Frames of `RTypeClient::tick` one after the other: the loop of `ClientManager::run` while a match lasts.
use rtype_ci_cd.Common.{
  ℕ, ◌≡◌, refl, sym, subst, ◌∙◌, inl, inr, Bool, true, false, Option, none, some, List, [], ◌∷◌,
  ◌++◌, Bool-cases, if◌then◌else◌, arith,
}
use rtype_ci_cd.Common.Int.{ℤ}
use rtype_ci_cd.Common.Machine.{Machine}
use rtype_ci_cd.Common.Strings.{Text, find_text, insert_text, find_text-insert_text, text_eq}
use rtype_ci_cd.ConfigManager.{up_key, down_key, left_key, right_key}
use rtype_ci_cd.Renderer.Types.{Rect}
use rtype_ci_cd.RTypeClient.Types.{InGameStatus, paused, RTypeClient, Effect}
use rtype_ci_cd.RTypeClient.Keys.{
  Keys, directions, handle_input, send_input, submit_chat, edit_chat,
}
use rtype_ci_cd.RTypeClient.Packets.{update}
use rtype_ci_cd.RTypeClient.Frame.{Frame, press_escape, score_if_due, die_if_hit, play}
use rtype_ci_cd.RTypeClient.Status.{overtakes, overtakes_self, overtakes_trans, Keeps, update-Keeps}

-- The actions that `handleInput` looks up are bound.
pub record IsBound (kb : List (Text × ℤ)) : Type 0 where
  pub up : ℤ
  pub down : ℤ
  pub left : ℤ
  pub right : ℤ
  pub find_up : find_text up_key kb ≡ some up
  pub find_down : find_text down_key kb ≡ some down
  pub find_left : find_text left_key kb ≡ some left
  pub find_right : find_text right_key kb ≡ some right

directions-some :
    (keys : Keys) (kb : List (Text × ℤ)) → IsBound kb → (d : ℕ) × (directions keys kb ≡ some d)
unfolding directions
directions-some keys kb h =
    rw (directions, h.find_up, h.find_down, h.find_left, h.find_right) (_, refl)

bound_insert :
    (action : Text) (key : ℤ) (kb : List (Text × ℤ)) (name : Text) (old : ℤ)
    → find_text name kb ≡ some old
    → (new : ℤ) × (find_text name (insert_text action key kb) ≡ some new)
bound_insert action key kb name old h = elim (Bool-cases (text_eq action name)) [
  | inl same ↦ (key, find_text-insert_text name action key kb ∙ rw same refl)
  | inr other ↦ (old, find_text-insert_text name action key kb ∙ rw other h)
]

pub insert-IsBound :
    (action : Text) (key : ℤ) (kb : List (Text × ℤ))
    → IsBound kb
    → IsBound (insert_text action key kb)
insert-IsBound action key kb h =
    let u = bound_insert action key kb up_key h.up h.find_up in
    let d = bound_insert action key kb down_key h.down h.find_down in
    let l = bound_insert action key kb left_key h.left h.find_left in
    let r = bound_insert action key kb right_key h.right h.find_right in
    record {
      up = u.0;
      down = d.0;
      left = l.0;
      right = r.0;
      find_up = u.1;
      find_down = d.1;
      find_left = l.1;
      find_right = r.1;
    }

-- The method returns, and neither the status nor the bindings change.
abbrev Same : RTypeClient → Option (RTypeClient × List Effect) → Type 0
Same c none = ⊥
Same c (some r) = (r.0.status ≡ c.status) × (r.0.keybinds ≡ c.keybinds)

if_Same :
    (b : Bool) (c : RTypeClient) (x y : Option (RTypeClient × List Effect))
    → Same c x
    → Same c y
    → Same c (if b then x else y)
if_Same true c x y h k = h
if_Same false c x y h k = k

if_some-Same :
    (b : Bool) (c : RTypeClient) (x y : RTypeClient × List Effect)
    → Same c (some x)
    → Same c (some y)
    → Same c (some (if b then x else y))
if_some-Same true c x y h k = h
if_some-Same false c x y h k = k

submit_chat-Same : (text : Text) (c : RTypeClient) → Same c (some (submit_chat text c))
unfolding submit_chat
submit_chat-Same [] c = (refl, refl)
submit_chat-Same (ch ∷ chs) c = (refl, refl)

module _ (m : Machine) where
  send_input-Same :
      (start : ℕ) (charging : Bool) (shot moves : ℕ) (c : RTypeClient)
      → Same c (some (send_input m start charging shot moves c))
  unfolding send_input
  send_input-Same start charging shot moves c = (ground arith, ground arith)

  handle_input-Same :
      (keys : Keys) (time : ℕ) (c : RTypeClient)
      → IsBound c.keybinds
      → Same c (handle_input m keys time c)
  unfolding handle_input edit_chat
  handle_input-Same keys time c h =
      if_Same keys.tab_pressed c _ _ (refl, refl)
        (if_Same c.is_chat_active c _ _
          (if_some-Same keys.enter_pressed c _ _ (submit_chat-Same c.chat_input c) (refl, refl))
          (rw (directions-some keys c.keybinds h).1 (send_input-Same _ _ _ _ c)))

  die_if_hit-Keeps :
      (collide : Rect → Rect → Bool) (c : RTypeClient) → Keeps c (die_if_hit m collide c).0
  unfolding die_if_hit
  die_if_hit-Keeps collide c = record {
    status = ground (arith, overtakes_self c.status);
    keybinds = ground arith;
  }

  -- The frame returns, with a status that may follow `s`, and the bindings of `c`.
  abbrev pub Follows : InGameStatus → RTypeClient → Option (RTypeClient × List Effect) → Type 0
  Follows s c none = ⊥
  Follows s c (some r) = (overtakes s r.0.status ≡ true) × (r.0.keybinds ≡ c.keybinds)

  -- What comes after the input of a frame.
  play_rest :
      (f : Frame) (s : InGameStatus) (c d : RTypeClient) (effects : List Effect)
      (o : Option (RTypeClient × List Effect))
      → overtakes s d.status ≡ true
      → d.keybinds ≡ c.keybinds
      → Same d o
      → Follows s c (elim o [
        | none ↦ none
        | some (moved, effects') ↦
            let (updated, effects'') = update m f.messages f.update_time f.arrivals moved in
            some (updated, effects ++ (effects' ++ effects''))
      ])
  play_rest f s c d effects none h k same = same
  play_rest f s c d effects (some (moved, effects')) h k same =
      let kept = update-Keeps m f.messages f.update_time f.arrivals moved in
      let here = subst (λ (t : InGameStatus). overtakes s t ≡ true) (sym same.0) h in
      (overtakes_trans s moved.status _ here kept.status, kept.keybinds ∙ same.1 ∙ k)

  pub play-Follows :
      (f : Frame) (c : RTypeClient)
      → IsBound c.keybinds
      → Follows (if f.keys.escape_pressed then paused else c.status) c (play m f c)
  unfolding play score_if_due
  play-Follows f c h =
      let scored = score_if_due f.score_test f.score_set (press_escape f.keys paused c) in
      let same : scored.keybinds ≡ c.keybinds = ground arith in
      let started : scored.status ≡ (if f.keys.escape_pressed then paused else c.status) =
        ground arith in
      let checked = die_if_hit-Keeps f.collide scored in
      play_rest f _ c (die_if_hit m f.collide scored).0 _ _
        (subst (λ (t : InGameStatus). overtakes t (die_if_hit m f.collide scored).0.status ≡ true)
          started checked.status)
        (checked.keybinds ∙ same)
        (handle_input-Same f.keys f.input_time (die_if_hit m f.collide scored).0
          (subst IsBound (sym (checked.keybinds ∙ same)) h))
