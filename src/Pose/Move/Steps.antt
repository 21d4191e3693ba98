-- ===== src/Pose/Move/Steps.antt =====
-- src/fm_robot_agent/pose_move.py: the calls that `Mover` makes, the plan, and how it hands the arms
-- back. The names that a measurement has to cover are always the same, and are left out of its calls;
-- printing is left out too.
use fm_robot_agent.Prelude.{
  ℕ, Bool, true, false, Option, none, some, List, [], ◌∷◌, ◌++◌, codes, if◌then◌else◌,
}
use fm_robot_agent.Text.{Str}
use fm_robot_agent.Dict.{Dict}
use fm_robot_agent.Pose.Controllers.{joints_of}
use fm_robot_agent.Pose.Move.{
  exception, Way, back, Reply, measured, readied, switched, sent, waited, cancelled, seeded,
  Numbers, Robot, M, pure, raise, ◌>>=◌, ◌>>◌, on_exception, at_key, at_keys,
}

abbrev pub arms : List Str
arms = codes "l" ∷ codes "r" ∷ []

abbrev pub or_else {ℓ} : {A : Type ℓ} → Option A → A → A
or_else none b = b
or_else (some a) b = a

-- `readings or last_known`: no readings, and readings of nothing, count as none.
abbrev pub or_known {ℓ} : {A : Type ℓ} → Option (Dict A) → Dict A → Dict A
or_known none last_known = last_known
or_known (some []) last_known = last_known
or_known (some (reading ∷ readings)) last_known = reading ∷ readings

module _ (numbers : Numbers) (robot : Robot numbers.F) where
  open numbers use {F, number, minus, times, over_by, absolute, lt, is_zero, round4}

  -- A call is logged, and what it answers does not depend on itself.
  unfoldable pub measure : F → M F (Option (Dict F))
  measure timeout l = (robot.measure l, measured timeout ∷ l)

  unfoldable pub servers_ready : F → M F Bool
  servers_ready timeout l = (robot.servers_ready l, readied timeout ∷ l)

  unfoldable pub switch : Way → M F Bool
  switch way l = (robot.switch way l, switched way (robot.switch way l) ∷ l)

  unfoldable pub send : Str → List F → F → M F Bool
  send side positions duration l = (robot.send l, sent side positions duration ∷ l)

  unfoldable pub wait : F → M F (Option (List ℕ))
  wait timeout l = (robot.wait l, waited timeout ∷ l)

  unfoldable pub cancel : M F (Unit {0})
  cancel l = (robot.cancel l, cancelled ∷ l)

  unfoldable pub seed : Str → List F → M F (Unit {0})
  seed side positions l = (robot.seed l, seeded side positions ∷ l)

  -- Python's `max` and `min` of two.
  abbrev larger : F → F → F
  larger a b = if lt a b then b else a

  abbrev smaller : F → F → F
  smaller a b = if lt b a then b else a

  largest_from : F → List F → F
  largest_from m [] = m
  largest_from m (x ∷ xs) = largest_from (larger m x) xs

  -- `max(…)` of what may be empty
  unfoldable pub largest : List F → M F F
  unfolding largest_from
  largest [] = raise (exception (codes "ValueError"))
  largest (x ∷ xs) = pure (largest_from x xs)

  unfoldable pub distances : Dict F → Dict F → M F (List F)
  distances [] readings = pure []
  distances ((name, target) ∷ targets) readings = do
    reading ← at_key readings name
    rest ← distances targets readings
    pure (absolute (minus target reading) ∷ rest)

  abbrev pub divided_if : Bool → F → F → M F F
  divided_if true a b = raise (exception (codes "ZeroDivisionError"))
  divided_if false a b = pure (over_by a b)

  abbrev pub divided : F → F → M F F
  divided a b = divided_if (is_zero b) a b

  -- `plan`: `CUBIC_PEAK` is three halves.
  unfoldable pub plan : Dict F → Dict F → F → F → M F F
  plan targets readings max_speed min_s = do
    ds ← distances targets readings
    d ← largest ds
    time ← divided (times (over_by (number 3) (number 2)) d) max_speed
    pure (larger min_s time)

  -- `_left`: the reserve is twenty seconds.
  unfoldable pub left : F → F → M F F
  left end_s step_s l =
      pure (larger (number 0) (smaller step_s (minus (minus end_s (number 20)) (robot.clock l)))) l

  -- `{name: round(a[name] - b[name], 4) …}` over the targets; `turn` says which way round.
  unfoldable pub offsets : (F → F → F) → Dict F → Dict F → M F (Dict F)
  offsets turn [] readings = pure []
  offsets turn ((name, target) ∷ targets) readings = do
    reading ← at_key readings name
    rest ← offsets turn targets readings
    pure ((name, round4 (turn target reading)) ∷ rest)

  abbrev pub plain : Bool → Str → Reply F
  plain b message = record {
    ok = b;
    message = message;
    duration_s = none;
    moves = none;
    error_rad = none;
    handed_back = none;
  }

  -- `_recover`
  unfoldable pub recover : M F (Unit {0})
  recover = on_exception cancel (λ e. pure tt)

  unfoldable pub seed_arms : Dict F → List Str → M F (Unit {0})
  seed_arms now [] = pure tt
  seed_arms now (side ∷ sides) = do
    positions ← at_keys now (joints_of side)
    seed side positions
    seed_arms now sides

  -- The `try` block of `_hand_back`, with the readings that the seeds take.
  unfoldable pub give_back : Dict F → M F (Bool × Dict F)
  give_back last_known = do
    now ← measure (number 2)
    done ← switch back
    pure (done, or_known now last_known)

  abbrev stranded : Str
  stranded =
      codes "arms holding on their trajectory controllers; send pose home or restart the stack"

  abbrev because : Str → Str → Str
  because [] text = text
  because (c ∷ why) text = c ∷ why ++ codes "; " ++ text

  abbrev after_why : Str → Str
  after_why [] = codes "handed back"
  after_why (c ∷ why) = c ∷ why ++ codes "; arms handed back where they stopped"

  -- `_hand_back` once it is known whether the controllers switched.
  unfoldable pub settle : Str → Bool × Dict F → M F (Reply F)
  settle why (false, now) =
      pure (record (plain false (because why stranded)) { handed_back = some false })
  settle why (true, now) = do
    seed_arms now arms
    pure (record (plain false (after_why why)) { handed_back = some true })

  -- `_hand_back`; its replies are failures until the caller says otherwise.
  unfoldable pub hand_back : Dict F → Str → M F (Reply F)
  hand_back last_known why = do
    given ← on_exception (give_back last_known) (λ e. pure (false, last_known))
    settle why given
