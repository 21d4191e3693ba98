-- ===== src/Anvil/Severing/Window.antt =====
-- src/fm_robot_agent/anvil.py: what the verification of a severing change has seen.
use fm_robot_agent.Prelude.{
  ℕ, ◌≡◌, ap, ◌<◌, ◌+◌, Bool, true, false, List, [], ◌∷◌, arith, ltb, ltb→lt, Bool-cases, inl, inr,
}
use fm_robot_agent.Anvil.World.{World, Glance, Ending, returned}
use fm_robot_agent.Anvil.Severing.{verify_window_ms, returns_by, window, data_plane_returns}

-- One of the looks, and none after one past the deadline, finds telemetry newer than `since`.
pub data Seen (since deadline : ℕ) : List Glance → Type 0 where
  now_seen : (g : Glance) (gs : List Glance) → since < g.last_seen → Seen since deadline (g ∷ gs)
  seen_later :
      (g : Glance) (gs : List Glance)
      → g.now < deadline
      → Seen since deadline gs
      → Seen since deadline (g ∷ gs)

returns_by-Seen :
    (since deadline : ℕ) (gs : List Glance)
    → returns_by since deadline gs ≡ true
    → Seen since deadline gs
unfolding returns_by
returns_by-Seen since deadline [] h = ground arith
returns_by-Seen since deadline (g ∷ gs) h = elim (Bool-cases (ltb since g.last_seen)) [
  | inl y ↦ now_seen g gs (ltb→lt since g.last_seen y)
  | inr n ↦ elim (Bool-cases (ltb g.now deadline)) [
    | inl early ↦
        seen_later g gs (ltb→lt g.now deadline early)
          (returns_by-Seen since deadline gs (ground arith))
    | inr late ↦ ground arith
  ]
]

-- The first look gives the moment that the others are compared with.
abbrev pub SeenInWindow : List Glance → Type 0
SeenInWindow [] = ⊥
SeenInWindow (g ∷ gs) = Seen g.now (g.now + verify_window_ms) gs

window-SeenInWindow : (gs : List Glance) → window gs ≡ true → SeenInWindow gs
window-SeenInWindow [] h = ground arith
window-SeenInWindow (g ∷ gs) h = returns_by-Seen g.now (g.now + verify_window_ms) gs h

verdict : Ending Bool → Bool
verdict (returned b) = b
verdict _ = false

-- Where the wait for the data plane answers that telemetry is back, one of the looks after the
-- first, and none after one past the deadline of 90 seconds, found telemetry newer than the clock
-- of the first look.
pub data_plane_returns-SeenInWindow :
    (w : World) → data_plane_returns w ≡ (returned true, w) → SeenInWindow w.glances
unfolding data_plane_returns verdict
data_plane_returns-SeenInWindow w h = window-SeenInWindow w.glances (ap (λ r. verdict r.0) h)
