-- ===== src/Verbs/Key.antt =====
-- src/fm_robot_agent/verbs.py: the verb set, and `verb_of`, which reads a key of the fabric.
pub mod Addressing
use fm_robot_agent.Prelude.{
  Bool, true, false, ◌&&◌, Option, none, some, List, [], ◌∷◌, ◌++◌, codes, if◌then◌else◌,
}
use fm_robot_agent.Text.{Str, str_eq, split, join}

-- `VERBS`: the reads, the reads that name a robot, and the writes.
pub data Verb : Type 0 where
  status episodes : Verb
  description asset : Verb
  up down config mode record_take stop session collect calibration pose perception_debug : Verb

abbrev pub verb_name : Verb → Str
verb_name status = codes "status"
verb_name episodes = codes "episodes"
verb_name description = codes "description"
verb_name asset = codes "asset"
verb_name up = codes "up"
verb_name down = codes "down"
verb_name config = codes "config"
verb_name mode = codes "mode"
verb_name record_take = codes "record"
verb_name stop = codes "stop"
verb_name session = codes "session"
verb_name collect = codes "collect"
verb_name calibration = codes "calibration"
verb_name pose = codes "pose"
verb_name perception_debug = codes "perception_debug"

abbrev pub verbs : List Verb
verbs =
    status ∷ episodes ∷ description ∷ asset ∷ up ∷ down ∷ config ∷ mode ∷ record_take ∷ stop
    ∷ session ∷ collect ∷ calibration ∷ pose ∷ perception_debug ∷ []

-- `verb in READ_VERBS`
abbrev pub is_read : Verb → Bool
is_read status = true
is_read episodes = true
is_read _ = false

-- The verb of a name, if `VERBS` has it.
unfoldable pub verb_named : Str → List Verb → Option Verb
verb_named name [] = none
verb_named name (v ∷ vs) = if str_eq name (verb_name v) then some v else verb_named name vs

abbrev pub key_prefix : Str
key_prefix = codes "fm/robot"

abbrev pub discovery_segment : Str
discovery_segment = codes "*"

-- The last two tests of `verb_of`: this robot's namespace, or a read by the wildcard.
unfoldable pub addressed : Str → Str → Option Verb → Option Verb
addressed queried namespace none = none
addressed queried namespace (some verb) =
    if str_eq queried namespace
    then some verb
    else if str_eq queried discovery_segment && is_read verb
    then some verb
    else none

-- `verb_of` on the parts of the key.
unfoldable pub verb_of_parts : List Str → Str → Option Verb
unfolding verb_named addressed
verb_of_parts (a ∷ b ∷ queried ∷ name ∷ []) namespace =
    if str_eq (join (47 ∷ []) (a ∷ b ∷ [])) key_prefix
    then addressed queried namespace (verb_named name verbs)
    else none
verb_of_parts _ namespace = none

unfoldable pub verb_of : Str → Str → Option Verb
unfolding verb_of_parts split
verb_of key namespace = verb_of_parts (split 47 key) namespace

-- `f"{KEY_PREFIX}/{namespace}/{verb}"`
abbrev pub key_of : Str → Str → Str
key_of namespace name = key_prefix ++ (47 ∷ (namespace ++ (47 ∷ name)))
