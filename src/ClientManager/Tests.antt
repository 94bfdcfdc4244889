-- ===== src/ClientManager/Tests.antt =====
-- Rounds of Src/Client/ClientManager.cpp.
use rtype_ci_cd.Common.{ℕ, ◌≡◌, true, false, none, some, List, [], ◌∷◌, leb, length, take, drop}
use rtype_ci_cd.Common.Int.{pos}
use rtype_ci_cd.Game.Samples.{machine}
use rtype_ci_cd.ConfigManager.{load_config}
use rtype_ci_cd.TcpClient.Socket.{Socket}
use rtype_ci_cd.ClientManager.Types.{ClientState, AppFrame, new_client_manager}
use rtype_ci_cd.ClientManager.Rounds.{IsPath}
use rtype_ci_cd.ClientManager.Path.{run, run-new_client_manager}

-- The bytes that have arrived.
abbrev stream : Socket (List ℕ)
stream = record {
  available = length;
  read = λ n s. record { bytes = take n s; ok = leb n (length s); next = drop n s };
  peek = take;
  write = λ bytes s. (true, s);
  set_non_blocking = λ b s. s;
}

-- The server's answer to the handshake, and the mouse on every button.
abbrev frame : AppFrame (List ℕ)
frame = record {
  chars = b'a' ∷ [];
  backspace = false;
  enter = true;
  clicked = true;
  key = pos 0;
  screen = record { width = 1920; height = 1080; over = λ _. true; clicked = true };
  now = 2;
  lobby_now = 3;
  after_second = λ _ _. true;
  after_half = λ _ _. true;
  connection = some (2 ∷ 1 ∷ 0 ∷ 0 ∷ 0 ∷ 57 ∷ 5 ∷ 0 ∷ 0 ∷ 0 ∷ 0 ∷ []);
  junk = [];
  udp_opens = true;
  match_frame = record {
    keys = record {
      escape_pressed = false;
      enter_pressed = false;
      tab_pressed = false;
      backspace_pressed = false;
      space_pressed = false;
      space_released = false;
      chars = [];
      down = λ _. false;
    };
    key = pos 0;
    screen = record { width = 1920; height = 1080; over = λ _. true; clicked = true };
    collide = λ _ _. false;
    score_test = 0;
    score_set = 0;
    input_time = 0;
    update_time = 0;
    messages = [];
    arrivals = [];
  };
}

run-new_client_manager_example :
    (states : List ClientState) × (run machine stream
        (frame ∷ frame ∷ frame ∷ [])
        (new_client_manager (load_config none) [] [] none)
      ≡ some states)
    × IsPath (new_client_manager {S = List ℕ} (load_config none) [] [] none).state states
run-new_client_manager_example =
    run-new_client_manager machine stream none [] [] (frame ∷ frame ∷ frame ∷ [])
      ((λ i. true), ((λ i. true), ((λ i. true), tt)))
