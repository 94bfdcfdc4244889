-- ===== src/Renderer/Tests.antt =====
-- Runs of Src/Client/Renderer.cpp.
use rtype_ci_cd.Common.{
  ℕ, ◌+◌, ◌-◌, ◌*◌, ◌≡◌, refl, ◌⊎◌, Bool, true, false, not, ◌&&◌, none, List, [], ◌∷◌, ◌++◌, map,
  length, get_elem?, ltb, leb, if◌then◌else◌, arith,
}
use mathlib.Core.Option
use rtype_ci_cd.Common.Int.{pos, pos_part, neg_part, eq_ℤ, ltb_ℤ, ◌-ℤ◌}
use rtype_ci_cd.Common.Machine.{Machine}
use rtype_ci_cd.Common.Floats.{half_double}
use rtype_ci_cd.Common.Maps.{find}
use rtype_ci_cd.Common.Strings.{Text, codes}
use rtype_ci_cd.Game.Samples.{machine}
use rtype_ci_cd.ConfigManager.{default_config}
use rtype_ci_cd.RTypeClient.Types.{RTypeClient, new_client, at_rest}
use rtype_ci_cd.Renderer.Types.{Texture, ParallaxLayer, new_renderer, new_layer}
use rtype_ci_cd.Renderer.Players.{Sight}
use rtype_ci_cd.Renderer.Parallax.{update_layer}
use rtype_ci_cd.Renderer.Entities.{draw_entities, draw_explosions}
use rtype_ci_cd.Renderer.Overlay.{newest_first, message_loop}
use rtype_ci_cd.Renderer.KeyNames.{unknown, get_key_name}
use rtype_ci_cd.Renderer.Bank.{HasOrder, AllLevel, draw_all, draw-AllLevel}
use rtype_ci_cd.Renderer.Sprites.{AllShown, draw_entities-drawn}
use rtype_ci_cd.Renderer.Bursts.{
  Moment, burst, frame, run, drop_old, Ages, bursts, draw_at, draw_explosions-run,
}
use rtype_ci_cd.Renderer.Chat.{chat_line, get_elem?-newest_five}
use rtype_ci_cd.Renderer.Labels.{get_key_name-distinct}
use rtype_ci_cd.Renderer.Background.{scroll, Covers, MovesLeft, scroll-new_layer}
use rtype_ci_cd.Protocol.Tcp.Messages.{bytes_of, connect}
use rtype_ci_cd.Protocol.Tcp.Roundtrip.{string_at}
use rtype_ci_cd.Game.Players.{copy_username}
use rtype_ci_cd.Renderer.Menus.{draw_username_input}
use rtype_ci_cd.Renderer.Username.{IsName, draw_username_input-IsName}

-- Two letters, one that cannot be typed, and the backspace.
abbrev chars : List ℕ
chars = b'b' ∷ 233 ∷ b'c' ∷ []

draw_username_input-IsName_example :
    let typed = (draw_username_input chars true false (b'a' ∷ [])).0 in
    IsName typed
    × (string_at 32 1 (bytes_of (connect (copy_username typed)) ++ (7 ∷ [])) ≡ typed)
    × (copy_username typed ≡ typed)
draw_username_input-IsName_example =
    draw_username_input-IsName chars true false (b'a' ∷ []) (7 ∷ [])
      (omega arith, (omega arith, omega arith, tt))

abbrev image_of : Text → Texture
image_of name = record { id = length name; width = 80; height = 40 }

abbrev sight : Sight
sight = record {
  frame_time = 3;
  down = λ key. eq_ℤ key (pos 87);
  width = 800;
  height = 450;
  charge_time = 9;
  entity_time = λ id. id;
  explosion_time = λ i. 100;
  chat_time = 5;
  measure_text = λ s size. pos (length s * size);
  format_score = λ score. [];
  format_loss = λ loss. [];
}

-- The own player 4 flies beside the player 5, below an entity of type 3 and one of an unknown type.
abbrev client : RTypeClient
client = record (new_client 4 5000 default_config.keybinds 0 false) {
  players = (4, at_rest 10 20) ∷ (5, record { x = 5; y = 6; vy = 7 }) ∷ [];
  entities = (8, record { x = 1; y = 2; type = 3 }) ∷ (9, record { x = 3; y = 4; type = 7 }) ∷ [];
}

machine-HasOrder : HasOrder machine
machine-HasOrder = record {
  lt_irrefl = λ a. ground arith;
  lt_trans = λ a b c h k. ground arith;
  zero_lt_two = refl;
  two_lt_four = refl;
  add_bound = λ a b s h k. ground arith;
  sub_bound = λ a b s h k. ground arith;
  scale_bound = λ t h. ground arith;
}

draw-AllLevel_example :
    AllLevel machine
      (draw_all machine
        ((sight, client) ∷ (sight, client) ∷ [])
        (new_renderer machine image_of 450)).player_bank
draw-AllLevel_example =
    draw-AllLevel machine machine-HasOrder image_of 450 ((sight, client) ∷ (sight, client) ∷ [])
      (refl, (refl, tt))

draw_entities-drawn_example : AllShown machine client.entities (
    draw_entities machine sight
      (draw_all machine ((sight, client) ∷ []) (new_renderer machine image_of 450)).textures
      client.entities)
draw_entities-drawn_example =
    draw_entities-drawn machine image_of 450 ((sight, client) ∷ []) sight client.entities

-- One explosion is gone at the third frame, and one is shown in it.
abbrev moments : List Moment
moments = burst 1 2 10 ∷ frame sight client ∷ burst 3 4 90 ∷ []

abbrev late : ℕ
late = half_double + 50

abbrev late_sight : Sight
late_sight = record sight { explosion_time = λ i. late }

machine-Ages : Ages machine
machine-Ages s t u first now last h k = ground arith

draw_explosions-run_example :
    let r = run machine moments (new_renderer machine image_of 450) in
    let young = drop_old machine late (bursts moments) in
    draw_explosions machine late_sight r.textures r.explosions
    ≡ (young, map (draw_at machine (image_of (codes "Assets/r-typesheet1.gif")) late) young)
draw_explosions-run_example =
    draw_explosions-run machine image_of 450 moments late_sight late machine-Ages (omega arith)
      (omega arith, ((100, (λ i. refl), omega arith, refl), (omega arith, tt))) (λ i. refl)

still_young : length (drop_old machine late (bursts moments)) ≡ 1
still_young = refl

abbrev chat : List Text
chat = codes "a" ∷ codes "b" ∷ codes "c" ∷ codes "d" ∷ codes "e" ∷ codes "f" ∷ []

get_elem?-newest_five_example : get_elem? (message_loop machine sight 0 (newest_first chat)) 4 ≡ (
    if ltb 4 5 && ltb 4 (length chat)
    then Option.map (chat_line machine sight 4) (get_elem? chat (length chat - 1 - 4))
    else none)
get_elem?-newest_five_example = get_elem?-newest_five machine sight chat 4

get_key_name-distinct_example : (pos 87 ≡ pos 87) ⊎ (get_key_name (pos 87) ≡ unknown)
get_key_name-distinct_example = get_key_name-distinct (pos 87) (pos 87) refl

name_of_w : get_key_name (pos 87) ≡ codes "W"
unfolding get_key_name find
name_of_w = refl

-- Floats as a sign and a number, with an arithmetic that is enough to move a layer.
abbrev is_negative : ℕ → Bool
is_negative a = ltb 0x8000_0000 a

abbrev less : ℕ → ℕ → Bool
less a b =
    if is_negative a
    then (if is_negative b then ltb b a else true)
    else (if is_negative b then false else ltb a b)

abbrev signed : Machine
signed = record machine {
  lt = less;
  le = λ a b. not (less b a);
  of_int = λ a. if ltb_ℤ a (pos 0) then 0x8000_0000 + neg_part a else pos_part a;
  mul = λ a b. a;
  sub = λ a b. if is_negative a then a + b else if leb b a then a - b else 0x8000_0000 + (b - a);
}

abbrev layer : ParallaxLayer
layer = new_layer 30 (image_of []) 6 0 0

signed-MovesLeft : MovesLeft signed layer ((800, 1, 150) ∷ (800, 1, 150) ∷ (800, 1, 150) ∷ [])
unfolding new_layer
signed-MovesLeft = ((λ a h. ground arith), ((λ a h. ground arith), ((λ a h. ground arith), tt)))

scroll-new_layer_example :
    Covers signed (scroll signed ((800, 1, 150) ∷ (800, 1, 150) ∷ (800, 1, 150) ∷ []) layer)
unfolding new_layer ltb_ℤ ◌-ℤ◌
scroll-new_layer_example =
    scroll-new_layer signed 30 (image_of []) 6 0
      ((800, 1, 150) ∷ (800, 1, 150) ∷ (800, 1, 150) ∷ []) refl refl refl signed-MovesLeft

-- Two steps of 30 pixels, and the third is back at the start: the image is 80 wide.
wraps : (scroll signed ((800, 1, 150) ∷ (800, 1, 150) ∷ (800, 1, 150) ∷ []) layer).offset ≡ 0
unfolding update_layer new_layer ltb_ℤ ◌-ℤ◌
wraps = refl
