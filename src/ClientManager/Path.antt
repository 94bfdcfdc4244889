-- ===== src/ClientManager/Path.antt =====
-- The way through the screens of `ClientManager::run`.
use rtype_ci_cd.Common.{true, ℕ, ◌≡◌, refl, Option, none, some, List, [], ◌∷◌, arith}
use rtype_ci_cd.Common.Machine.{Machine}
use rtype_ci_cd.Common.Strings.{Text}
use rtype_ci_cd.ConfigManager.{load_config}
use rtype_ci_cd.RTypeClient.Types.{Effect}
use rtype_ci_cd.RTypeClient.Match.{load_config-KeysBound}
use rtype_ci_cd.TcpClient.Socket.{Socket}
use rtype_ci_cd.ClientManager.Types.{ClientManager, AppFrame, ClientState, new_client_manager}
use rtype_ci_cd.ClientManager.Frames.{run_frame}
use rtype_ci_cd.ClientManager.Rounds.{IsPath, IsSound, Shows, run_frame-Shows}

-- The constructor of `UDPClient` does not throw, should a match begin in the round.
abbrev pub AllOpen : {S : Type 0} → List (AppFrame S) → Type 0
AllOpen [] = Unit
AllOpen (f ∷ fs) = (f.udp_opens ≡ true) × AllOpen fs

module _ {S : Type 0} (m : Machine) (io : Socket S) where
  -- The screens after each of the rounds, or nothing where one throws.
  unfoldable pub run : List (AppFrame S) → ClientManager S → Option (List ClientState)
  run [] w = some []
  run (f ∷ fs) w = elim (run_frame m io f w) [
    | none ↦ none
    | some (v, effects) ↦ elim (run fs v) [ none ↦ none | some states ↦ some (v.state ∷ states) ]
  ]

  run_step :
      (fs : List (AppFrame S)) (w : ClientManager S) (o : Option (ClientManager S × List Effect))
      → Shows w o
      → ((v : ClientManager S)
          → IsSound v
          → (states : List ClientState) × (run fs v ≡ some states) × IsPath v.state states)
      → (states : List ClientState) × (elim o [
        | none ↦ none
        | some (v, effects) ↦ elim (run fs v) [
          | none ↦ none
          | some states ↦ some (v.state ∷ states)
        ]
      ]
          ≡ some states)
        × IsPath w.state states
  run_step fs w none h ih = elim h [ ]
  run_step fs w (some (v, effects)) h ih =
      let (states, ran, path) = ih v h.1 in (v.state ∷ states, rw ran refl, (h.0, path))

  run_sound :
      (fs : List (AppFrame S)) (w : ClientManager S)
      → AllOpen fs
      → IsSound w
      → (states : List ClientState) × (run fs w ≡ some states) × IsPath w.state states
  unfolding run
  run_sound [] w opens h = ([], refl, tt)
  run_sound (f ∷ fs) w opens h =
      run_step fs w (run_frame m io f w) (run_frame-Shows m io f w opens.0 h)
        (λ v sound. run_sound fs v opens.1 sound)

  -- The client starts with the settings of any file, or of none, and no match that begins fails to open its
  -- UDP socket, whose exception nothing in the loop catches; `available` and `non_blocking` of the stream do
  -- not throw in a request. Whatever is typed, clicked and received, and whatever else the stream gives, every
  -- round of the loop returns, and each screen may follow the one before: the lobby only the rooms, the match
  -- only the lobby, and the end of the program only the rooms, the match or the notice of a kick.
  pub run-new_client_manager :
      (file : Option Text) (socket : S) (response : List ℕ) (fs : List (AppFrame S))
      → AllOpen fs
      → (states : List ClientState) × (run fs
            (new_client_manager (load_config file) socket response file)
          ≡ some states)
        × IsPath (new_client_manager (load_config file) socket response file).state states
  unfolding new_client_manager
  run-new_client_manager file socket response fs opens =
      run_sound fs (new_client_manager (load_config file) socket response file) opens
        (record { keys = load_config-KeysBound file; game = tt; online = λ p. ground (arith, p) })
