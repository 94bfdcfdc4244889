-- ===== src/RTypeClient/Tests.antt =====
-- Runs of the client of Src/Client/RTypeClient.cpp.
use rtype_ci_cd.Common.{
  ℕ, ◌+◌, ◌%◌, ◌≤◌, ◌≡◌, refl, true, false, none, some, List, [], ◌∷◌, ltb, u32, arith,
}
use rtype_ci_cd.Common.Int.{pos}
use rtype_ci_cd.Common.Machine.{Machine}
use rtype_ci_cd.Common.Maps.{find}
use rtype_ci_cd.Protocol.Udp.Messages.{PlayerInputPacket, size_of}
use rtype_ci_cd.Game.Types.{Player, no_boss, new_game, to_all}
use rtype_ci_cd.Game.Players.{find_player}
use rtype_ci_cd.Game.Entities.{
  update_entities, update_entities_loop, is_gone, advance, synced, send_global_state_sync,
}
use rtype_ci_cd.Game.Samples.{machine, home, alice, fight}
use rtype_ci_cd.ConfigManager.{load_config}
use rtype_ci_cd.RTypeClient.Types.{RTypeClient, LossStats, InGameStatus, playing, new_client}
use rtype_ci_cd.RTypeClient.Keys.{Keys}
use rtype_ci_cd.RTypeClient.Loss.{percentage}
use rtype_ci_cd.RTypeClient.Packets.{is_game_over, on_player_state, receive_loop}
use rtype_ci_cd.RTypeClient.Frame.{Frame}
use rtype_ci_cd.RTypeClient.Handled.{active, place, handle_inputs}
use rtype_ci_cd.RTypeClient.Prediction.{state_of, on_player_state_predicts}
use rtype_ci_cd.RTypeClient.Served.{receive_inputs, on_message_received_predicts}
use rtype_ci_cd.ServerManager.{ServerManager, new_manager}
use rtype_ci_cd.ServerManager.Inputs.{player_in}
use rtype_ci_cd.RTypeClient.Events.{within}
use rtype_ci_cd.RTypeClient.Window.{State, history, window_start, note_states, note_states-window}
use rtype_ci_cd.RTypeClient.Runs.{run, IsPath}
use rtype_ci_cd.RTypeClient.Match.{Lasts, run-new_client}
use rtype_ci_cd.RTypeClient.Wire.{datagrams}
use rtype_ci_cd.RTypeClient.Mirror.{Mirrors, received_by, update_entities-Mirrors}
use rtype_ci_cd.RTypeClient.Resync.{send_global_state_sync-Mirrors}

-- The order of the bit patterns of numbers of which one at most is negative.
abbrev ordered : Machine
ordered = record machine { lt = λ a b. ltb ((a + 0x8000_0000) % u32) ((b + 0x8000_0000) % u32) }

abbrev no_loss : LossStats
no_loss = record {
  last_server_seq = 0;
  is_first_server_packet = true;
  packet_events = [];
  packet_loss_percentage = 0;
}

-- Two inputs that the server has, one without a bit, and one on its way.
abbrev handled : List PlayerInputPacket
handled =
    record { player_id = 4; tick = 3; inputs = 1 }
    ∷ record { player_id = 4; tick = 4; inputs = 0 }
    ∷ []

abbrev rest : List PlayerInputPacket
rest = record { player_id = 4; tick = 5; inputs = 10 } ∷ []

-- Alice's client; it shows the entities of the fight.
abbrev client : RTypeClient
client = record {
  my_player_id = 4;
  players = [];
  entities =
      (8, record { x = 100; y = 100; type = 4 }) ∷ (9, record { x = 100; y = 100; type = 10 }) ∷ [];
  rtt = 0;
  tick = 6;
  keybinds = [];
  status = playing;
  pending_inputs =
      record { player_id = 4; tick = 3; inputs = 1 }
      ∷ record { player_id = 4; tick = 5; inputs = 10 }
      ∷ [];
  last_ping_time = 0;
  is_chat_active = false;
  chat_input = [];
  chat_history = [];
  score = 0;
  last_score_increase_time = 0;
  loss = no_loss;
  boss_hp = pos 0;
  boss_max_hp = pos 1000;
  charge_start = 0;
  is_charging = false;
}

on_player_state_predicts_example :
    let g' = handle_inputs machine fight handled in
    (told : Player) × (find_player 4 g'.players ≡ some told)
    × (let c' = on_player_state machine 7000 (state_of machine 12 0 told) client in
        (c'.pending_inputs ≡ active rest)
        × ((later : Player) × (find_player 4 (handle_inputs machine g' rest).players ≡ some later)
            × (find 4 c'.players ≡ some (place later))))
on_player_state_predicts_example =
    on_player_state_predicts machine fight alice handled rest 7000 12 0 client
      (unfold find_player in refl) refl (refl, (refl, (refl, tt)))
      (omega arith, (omega arith, (omega arith, tt))) refl (unfold is_game_over in refl)

-- A room without players, and the fight.
abbrev manager : ServerManager
manager = record new_manager {
  rooms =
      record { id = pos 0; address = 100; game = new_game no_boss 0 }
      ∷ record { id = pos 1; address = 200; game = fight }
      ∷ [];
}

on_message_received_predicts_example :
    let s' = receive_inputs machine home handled manager in
    (told : Player) × (player_in 4 s'.rooms ≡ some told)
    × (let c' = on_player_state machine 7000 (state_of machine 12 0 told) client in
        (c'.pending_inputs ≡ active rest)
        × ((later : Player) × (player_in 4 (receive_inputs machine home rest s').rooms ≡ some later)
            × (find 4 c'.players ≡ some (place later))))
on_message_received_predicts_example =
    on_message_received_predicts machine home manager alice handled rest 7000 12 0 client
      (unfold find_player new_game in refl) refl (refl, (refl, (refl, tt)))
      (
        (omega arith, omega arith, omega arith),
        ((omega arith, omega arith, omega arith), ((omega arith, omega arith, omega arith), tt)),
      )
      (omega arith, (omega arith, (omega arith, tt))) refl (unfold is_game_over in refl)

-- Of the packets 1, 2, 5 and 6 the first comes too early to count, and the last when the second has expired.
abbrev states : List State
states = (1, 4000) ∷ (2, 6000) ∷ (5, 9000) ∷ (6, 12000) ∷ []

note_states-window_example :
    ((note_states machine states no_loss).packet_events
      ≡ within (window_start 12000) (history states no_loss).packet_events)
    × ((note_states machine states no_loss).packet_loss_percentage
        ≡ percentage machine (within (window_start 12000) (history states no_loss).packet_events))
note_states-window_example =
    note_states-window machine states 12000 no_loss refl (unfold percentage in refl)
      (omega arith, (omega arith, (omega arith, (omega arith, refl)))) (omega arith)

-- Escape, with the mouse on every button, and W held.
abbrev keys : Keys
keys = record {
  escape_pressed = true;
  enter_pressed = false;
  tab_pressed = false;
  backspace_pressed = false;
  space_pressed = true;
  space_released = false;
  chars = [];
  down = λ _. true;
}

abbrev frame : Frame
frame = record {
  keys = keys;
  key = pos 72;
  screen = record { width = 1920; height = 1080; over = λ _. true; clicked = true };
  collide = λ _ _. false;
  score_test = 1000;
  score_set = 1001;
  input_time = 1002;
  update_time = 1003;
  messages = [];
  arrivals = (2 ∷ [], 1004) ∷ [];
}

run-new_client_example :
    (ts : List InGameStatus) × (run machine
        (frame ∷ frame ∷ [])
        none
        (new_client 4 5000 (load_config (some (b'U' ∷ b'P' ∷ b'=' ∷ b'9' ∷ []))).keybinds 0 false)
      ≡ some ts)
    × IsPath playing ts
    × Lasts playing ts
run-new_client_example =
    run-new_client machine (some (b'U' ∷ b'P' ∷ b'=' ∷ b'9' ∷ [])) 4 5000 0 false
      (frame ∷ frame ∷ [])

client-Mirrors : Mirrors fight.entities client.entities
unfolding find
client-Mirrors i = ground arith

client_local : (i : ℕ) → 9999 ≤ i → find i client.entities ≡ none
unfolding find
client_local i h = ground arith

update_entities-Mirrors_example :
    Mirrors
      (update_entities ordered fight).0.entities
      (receive_loop ordered
        (datagrams ordered 8000 (received_by home (update_entities ordered fight).1))
        client).0.entities
update_entities-Mirrors_example =
    update_entities-Mirrors ordered fight home 8000 client refl (refl, (refl, tt))
      (unfold update_entities update_entities_loop is_gone advance to_all size_of in omega arith)
      client-Mirrors

send_global_state_sync-Mirrors_example :
    Mirrors fight.entities
      (receive_loop ordered
        (datagrams ordered 8000 (received_by home (send_global_state_sync fight)))
        client).0.entities
send_global_state_sync-Mirrors_example =
    send_global_state_sync-Mirrors ordered fight home 8000 client refl (refl, (refl, tt))
      (unfold send_global_state_sync to_all synced size_of in omega arith) client_local
