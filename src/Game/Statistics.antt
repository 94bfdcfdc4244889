-- ===== src/Game/Statistics.antt =====
-- The packet statistics of `Game::handlePlayerInput` of Src/Server/Game.cpp over a sequence of inputs.
use rtype_ci_cd.Common.{
  ℕ, ◌+◌, ◌≤◌, ◌<◌, ◌≡◌, subst, true, false, List, [], ◌∷◌, length, ltb, if◌then◌else◌, arith, u32,
}
use rtype_ci_cd.Game.Types.{Player}
use rtype_ci_cd.Game.Shots.{count_input}

-- The ticks of a player's inputs, as they arrive.
unfoldable pub count_inputs : List ℕ → Player → Player
count_inputs [] p = p
count_inputs (t ∷ ts) p = count_inputs ts (count_input t p)

abbrev pub later : ℕ → ℕ → ℕ
later a b = if ltb a b then b else a

abbrev pub latest : ℕ → List ℕ → ℕ
latest t [] = t
latest t (x ∷ xs) = latest (later t x) xs

abbrev pub AllTicks : List ℕ → Type 0
AllTicks [] = Unit
AllTicks (t ∷ ts) = (t < u32) × AllTicks ts

-- After a first tick `t`, the latest being `last`: what was received and lost makes up the ticks between.
pub record Counted (t last n : ℕ) (p : Player) : Type 0 where
  pub started : p.first_input_received ≡ false
  pub latest_tick : p.last_input_tick ≡ last
  pub small : last < u32
  pub after : t ≤ last
  pub total : p.received_inputs + p.lost_inputs + t ≡ last + 1
  pub some_received : 1 ≤ p.received_inputs
  pub received : p.received_inputs ≤ n

count_input-Counted :
    (t last n x : ℕ) (p : Player)
    → x < u32
    → Counted t last n p
    → Counted t (later last x) (n + 1) (count_input x p)
unfolding count_input
count_input-Counted t last n x p small v = record {
  started = ground (arith, v.started);
  latest_tick = ground (arith, v.started, v.latest_tick);
  small = ground (arith, v.small);
  after = ground (arith, v.after);
  total = ground (arith, v.started, v.latest_tick, v.small, v.total);
  some_received = ground (arith, v.started, v.latest_tick, v.small, v.total, v.some_received);
  received = ground (arith, v.started, v.latest_tick, v.received);
}

count_inputs-Counted :
    (ts : List ℕ) (t last n : ℕ) (p : Player)
    → AllTicks ts
    → Counted t last n p
    → Counted t (latest last ts) (n + length ts) (count_inputs ts p)
unfolding count_inputs
count_inputs-Counted [] t last n p h v =
    subst (λ k. Counted t last k p) (let e : n ≡ n + 0 = omega arith in e) v
count_inputs-Counted (x ∷ xs) t last n p h v =
    subst (λ k. Counted t (latest (later last x) xs) k (count_inputs xs (count_input x p)))
      (let e : (n + 1) + length xs ≡ n + length (x ∷ xs) = omega arith in e)
      (count_inputs-Counted xs t (later last x) (n + 1) (count_input x p) h.1
        (count_input-Counted t last n x p h.0 v))

-- The first input of a player who has lost none, with tick `t`, and then inputs with any ticks, in any
-- order and with repetitions: the last tick is the greatest of them, the inputs counted as received and
-- as lost make up the ticks from the first to the last one, at least one is counted as received, and no more
-- than arrived.
pub count_inputs_first-Counted :
    (t : ℕ) (ts : List ℕ) (p : Player)
    → p.first_input_received ≡ true
    → p.lost_inputs ≡ 0
    → t < u32
    → AllTicks ts
    → Counted t (latest t ts) (1 + length ts) (count_inputs (t ∷ ts) p)
unfolding count_inputs count_input
count_inputs_first-Counted t ts p first none_lost small h =
    count_inputs-Counted ts t t 1 (count_input t p) h (record {
      started = ground (arith, first);
      latest_tick = ground (arith, first);
      small = small;
      after = omega arith;
      total = ground (arith, first, none_lost);
      some_received = ground (arith, first);
      received = ground (arith, first);
    })
