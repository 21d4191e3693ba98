-- ===== src/Fake/Takes.antt =====
-- src/fm_robot_agent/fake.py: what recording a take does to the list of takes.
use fm_robot_agent.Prelude.{
  ◌≡◌, refl, sym, subst, ◌∙◌, ap, Bool, ◌&&◌, true, false, not, Option, none, some, List, [], ◌∷◌,
  ◌++◌, codes, length, arith, if◌then◌else◌,
}
use fm_robot_agent.Text.{Str, str_eq, str_eq_refl}
use fm_robot_agent.Dict.{get, get-insert}
use fm_robot_agent.Fake.{Answer, Fake, four_digits}
use fm_robot_agent.Fake.Capture.{
  episodes, listed, start_take, stop_take, record_take, stale, is_empty,
}

-- A take started and stopped, with the episode that the robot named.
abbrev pub start_then_stop : Str → Str → Fake → Answer × Fake
start_then_stop dataset note f =
    let (a, g) = record_take dataset (codes "start") [] [] [] f in
    record_take dataset (codes "stop") [] note (four_digits (length (episodes dataset f))) g

start_lem :
    (dataset : Str) (f : Fake)
    → f.recording ≡ none
    → record_take dataset (codes "start") [] [] [] f ≡ start_take dataset none f
unfolding record_take str_eq
start_lem dataset f idle = ap (λ o. start_take dataset o f) idle

not_start : str_eq (codes "stop") (codes "start") ≡ false
unfolding str_eq
not_start = refl

-- The episode that is being recorded is not a stale one.
stale-recorded : (e : Str) (o : Option Str) → o ≡ some e → stale e o ≡ false
stale-recorded e o h = ap (stale e) h ∙ ap not (str_eq_refl e)

and_false : (a b c : Bool) → c ≡ false → (a && b && c) ≡ false
and_false a b c h = ground arith

stop_lem :
    (dataset note e : Str) (g : Fake) (into : Str)
    → g.recording_episode ≡ some e
    → g.recording ≡ some into
    → record_take dataset (codes "stop") [] note e g ≡ stop_take (some into) g
unfolding record_take
stop_lem dataset note e g into named busy = rw (
  and_false (str_eq (codes "stop") (codes "stop")) (not (is_empty e)) (stale e g.recording_episode)
      (stale-recorded e g.recording_episode named),
  not_start,
  busy,
)

listed-if :
    (b : Bool) (xs : List Str) (o : Option (List Str))
    → listed (if b then some xs else o) ≡ (if b then xs else listed o)
listed-if true xs o = refl
listed-if false xs o = refl

-- The recorder is idle, and the data set has one take more.
pub record OneMore (dataset : Str) (f : Fake) (r : Answer × Fake) : Type 0 where
  pub succeeds : r.0.ok ≡ true
  pub rests : (r.1.recording ≡ none) × (r.1.recording_episode ≡ none)
  pub gains :
      (d : Str)
      → episodes d r.1 ≡ (
          if str_eq dataset d
          then episodes dataset f ++ four_digits (length (episodes dataset f)) ∷ []
          else episodes d f)

-- On the fake robot with nothing being recorded, a take that is started and then stopped with the
-- episode that the robot named succeeds, leaves the recorder idle, and adds one take at the end of
-- its data set and none to any other.
pub start_then_stop-OneMore :
    (dataset note : Str) (f : Fake)
    → f.recording ≡ none
    → OneMore dataset f (start_then_stop dataset note f)
unfolding start_take stop_take episodes
start_then_stop-OneMore dataset note f idle =
    let slugs = episodes dataset f in
    let slug = four_digits (length slugs) in
    let g = (start_take dataset none f).1 in
    let calls : start_then_stop dataset note f ≡ stop_take (some dataset) g =
      ap (λ r. record_take dataset (codes "stop") [] note slug r.1) (start_lem dataset f idle)
      ∙ stop_lem dataset note slug g dataset refl refl in
    subst (OneMore dataset f) (sym calls) (record {
      succeeds = refl;
      rests = (refl, refl);
      gains = λ d.
          ap listed (get-insert dataset d (slugs ++ slug ∷ []) f.takes)
          ∙ listed-if (str_eq dataset d) (slugs ++ slug ∷ []) (get d f.takes);
    })
