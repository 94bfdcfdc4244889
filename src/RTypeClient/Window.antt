-- ===== src/RTypeClient/Window.antt =====
-- The events that the packet loss of `RTypeClient::update` is computed from, against the whole history.
use rtype_ci_cd.Common.{
  ℕ, zero, suc, ◌-◌, ◌≤◌, ◌<◌, ◌≡◌, refl, sym, ap, ap₂, subst, ◌∙◌, Bool, true, false, List, [],
  ◌∷◌, ◌++◌, inl, inr, Bool-cases, replicate, leb, ltb, if◌then◌else◌, u32, arith,
}
use mathlib.Core.List.{append-nil}
use rtype_ci_cd.Common.Machine.{Machine}
use rtype_ci_cd.RTypeClient.Types.{PacketEvent, received, lost, LossStats}
use rtype_ci_cd.RTypeClient.Events.{
  within, Between, Between-weaken, Between-append, within-Between, within_all, within_none,
  drop_before-within, within_earlier, within_later, within-append,
}
use rtype_ci_cd.RTypeClient.Loss.{event, note_sequence, cutoff, drop_before, percentage, note_state}

-- What a state packet adds.
unfoldable added : ℕ → ℕ → ℕ → Bool → List PacketEvent
added sequence now last first =
    if first
    then event received now ∷ []
    else if ltb last sequence
    then replicate (sequence - last - 1) (event lost now) ++ event received now ∷ []
    else []

note_sequence-events :
    (sequence now : ℕ) (s : LossStats)
    → (note_sequence sequence now s).packet_events
      ≡ s.packet_events ++ added sequence now s.last_server_seq s.is_first_server_packet
unfolding note_sequence added
note_sequence-events sequence now s = ground (arith, append-nil s.packet_events)

replicate-Between :
    (k : ℕ) (e : PacketEvent)
    → Between e.timestamp (replicate k e ++ event received e.timestamp ∷ []) e.timestamp
replicate-Between zero e = (omega arith, omega arith)
replicate-Between (suc k) e = (omega arith, replicate-Between k e)

added-Between :
    (sequence now last : ℕ) (first : Bool) → Between now (added sequence now last first) now
unfolding added
added-Between sequence now last true = (omega arith, omega arith)
added-Between sequence now last false = elim (Bool-cases (ltb last sequence)) [
  | inl more ↦ rw more (replicate-Between (sequence - last - 1) (event lost now))
  | inr old ↦ rw old (let e : now ≤ now = omega arith in e)
]

-- The numbers of state packets with the times they arrive at.
abbrev pub State : Type 0
State = ℕ × ℕ

-- All that was ever noted.
unfoldable pub history : List State → LossStats → LossStats
history [] s = s
history ((sequence, now) ∷ ps) s = history ps (note_sequence sequence now s)

-- The times of the packets do not fall, from `t` to `u`.
abbrev pub Ticks : ℕ → List State → ℕ → Type 0
Ticks t [] u = t ≡ u
Ticks t ((sequence, now) ∷ ps) u = (t ≤ now) × Ticks now ps u

-- The start of the window at the time `t`.
abbrev pub window_start : ℕ → ℕ
window_start t = if leb 10000 t then t - 5000 else 5000

-- The stats of the client, and those with the whole history, at the time `t`.
record Tracks (t : ℕ) (s h : LossStats) : Type 0 where
  last : s.last_server_seq ≡ h.last_server_seq
  first : s.is_first_server_packet ≡ h.is_first_server_packet
  events : s.packet_events ≡ within (window_start t) h.packet_events
  times : Between 0 h.packet_events t

window_moves :
    (t now : ℕ) (es : List PacketEvent)
    → t ≤ now
    → 5000 ≤ now
    → within (now - 5000) (within (window_start t) es) ≡ within (window_start now) es
window_moves t now es up late = elim (Bool-cases (leb 10000 now)) [
  | inl far ↦
      within_later (now - 5000) (window_start t) es (ground (arith, far))
      ∙ ap (λ (c : ℕ). within c es)
          (let e : now - 5000 ≡ window_start now = ground (arith, far) in e)
  | inr near ↦
      let e : window_start t ≡ 5000 = ground (arith, near) in
      let e' : window_start now ≡ 5000 = ground (arith, near) in
      ap (λ (c : ℕ). within (now - 5000) (within c es)) e
      ∙ within_earlier (now - 5000) 5000 es (ground (arith, near))
      ∙ ap (λ (c : ℕ). within c es) (sym e')
]

drop_window :
    (t now : ℕ) (es fs : List PacketEvent)
    → Between 0 es t
    → Between now fs now
    → t ≤ now
    → now < u32
    → drop_before (cutoff now) (within (window_start t) es ++ fs)
      ≡ within (window_start now) (es ++ fs)
unfolding cutoff
drop_window t now es fs old new up small =
    drop_before-within (cutoff now) 0 kept now times ∙ elim (Bool-cases (leb 5000 now)) [
      | inl late ↦
          ap (λ (c : ℕ). within c kept)
            (let e : cutoff now ≡ now - 5000 = ground (arith, late) in e)
          ∙ within-append (now - 5000) (within (window_start t) es) fs
          ∙ ap₂ (λ (xs ys : List PacketEvent). xs ++ ys)
              (window_moves t now es up (ground (arith, late)))
              (within_all (now - 5000) now fs now new (omega arith)
                ∙ sym (within_all (window_start now) now fs now new (ground (arith, late))))
          ∙ sym (within-append (window_start now) es fs)
      | inr early ↦
          within_none (cutoff now) 0 kept now times (ground (arith, early))
          ∙ sym (
              within_none (window_start now) 0 (es ++ fs) now
                (Between-append 0 es fs t now old later) (ground (arith, early)))
    ]
  where
    kept : List PacketEvent
    kept = within (window_start t) es ++ fs

    later : Between t fs now
    later = Between-weaken t now fs now up new

    times : Between 0 kept now
    times =
        Between-append 0 (within (window_start t) es) fs t now
          (within-Between (window_start t) 0 es t old) later

Ticks-le : (ps : List State) (t u : ℕ) → Ticks t ps u → t ≤ u
Ticks-le [] t u h = omega arith
Ticks-le ((sequence, now) ∷ ps) t u h = omega (arith, h.0, Ticks-le ps now u h.1)

module _ (m : Machine) where
  unfoldable pub note_states : List State → LossStats → LossStats
  note_states [] s = s
  note_states ((sequence, now) ∷ ps) s = note_states ps (note_state m sequence now s)

  note_state-Tracks :
      (t sequence now : ℕ) (s h : LossStats)
      → t ≤ now
      → now < u32
      → Tracks t s h
      → Tracks now (note_state m sequence now s) (note_sequence sequence now h)
  unfolding note_state
  note_state-Tracks t sequence now s h up small k = record {
    last = unfold note_sequence in ground (arith, k.last, k.first);
    first = unfold note_sequence in ground (arith, k.last, k.first);
    events =
        ap (drop_before (cutoff now)) (
          note_sequence-events sequence now s
          ∙ ap₂ (λ (l : ℕ) (b : Bool). s.packet_events ++ added sequence now l b) k.last k.first
          ∙ ap (λ (es : List PacketEvent). es ++ new) k.events)
        ∙ drop_window t now h.packet_events new k.times new_times up small
        ∙ ap (within (window_start now)) (sym (note_sequence-events sequence now h));
    times =
        subst (λ (es : List PacketEvent). Between 0 es now)
          (sym (note_sequence-events sequence now h))
          (Between-append 0 h.packet_events new t now k.times
            (Between-weaken t now new now up new_times));
  }
    where
      new : List PacketEvent
      new = added sequence now h.last_server_seq h.is_first_server_packet

      new_times : Between now new now
      new_times = added-Between sequence now h.last_server_seq h.is_first_server_packet

  note_states-Tracks :
      (ps : List State) (t u : ℕ) (s h : LossStats)
      → Ticks t ps u
      → u < u32
      → Tracks t s h
      → Tracks u (note_states ps s) (history ps h)
  unfolding note_states history
  note_states-Tracks [] t u s h up small k = subst (λ (v : ℕ). Tracks v s h) up k
  note_states-Tracks ((sequence, now) ∷ ps) t u s h up small k =
      note_states-Tracks ps now u (note_state m sequence now s) (note_sequence sequence now h) up.1
        small (note_state-Tracks t sequence now s h up.0 (omega (arith, Ticks-le ps now u up.1)) k)

  note_states-percentage :
      (ps : List State) (s : LossStats)
      → s.packet_loss_percentage ≡ percentage m s.packet_events
      → (note_states ps s).packet_loss_percentage ≡ percentage m (note_states ps s).packet_events
  unfolding note_states note_state
  note_states-percentage [] s h = h
  note_states-percentage ((sequence, now) ∷ ps) s h =
      note_states-percentage ps (note_state m sequence now s) refl

  -- For a client without events, whose percentage is that of no events, and states of its own that arrive at
  -- times which do not fall and lie below 2 ^ 32: after the last of them, at the time `u`, the events are
  -- those of the whole history whose time is at least `u - 5000` and at least 5000, in their order, and
  -- the percentage shown is that of these events. So what arrives in the first five seconds never counts.
  pub note_states-window :
      (ps : List State) (u : ℕ) (s : LossStats)
      → s.packet_events ≡ []
      → s.packet_loss_percentage ≡ percentage m s.packet_events
      → Ticks 0 ps u
      → u < u32
      → ((note_states ps s).packet_events ≡ within (window_start u) (history ps s).packet_events)
        × ((note_states ps s).packet_loss_percentage
            ≡ percentage m (within (window_start u) (history ps s).packet_events))
  note_states-window ps u s empty shown up small =
      let kept =
        (note_states-Tracks ps 0 u s s up small (record {
          last = refl;
          first = refl;
          events = empty ∙ sym (ap (within (window_start 0)) empty);
          times =
              subst (λ (es : List PacketEvent). Between 0 es 0) (sym empty)
                (let e : 0 ≤ 0 = omega arith in e);
        })).events in
      (kept, note_states-percentage ps s shown ∙ ap (percentage m) kept)
