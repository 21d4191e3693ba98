-- ===== src/Verbs/Router.antt =====
-- src/fm_robot_agent/verbs.py: `answer`, which routes one query to one handler. The robot and its
-- description bundle share one state, so that an effect on either shows.
pub mod Replies
pub mod Guards
pub mod Writes
use fm_robot_agent.Prelude.{true, Option, none, some, List, [], ◌∷◌, ◌++◌, codes, if◌then◌else◌}
use fm_robot_agent.Text.{Str}
use fm_robot_agent.Json.{bool, str, arr, end, field, merge}
use fm_robot_agent.Protocol.{Action, Result, ok, err, pure, ◌>>=◌, Adapter, Bundle, Python}
use fm_robot_agent.Verbs.Key.{Verb, verb_name, verb_of, key_of}
use fm_robot_agent.Verbs.Reply.{Reply, raw, envelope, refuse}
use fm_robot_agent.Verbs.Values.{body_of, valid_dataset}
use fm_robot_agent.Verbs.Handlers
use fm_robot_agent.Verbs.Equipment

-- `(values or [""])[0]`
abbrev pub first_value : List Str → Str
first_value [] = []
first_value (v ∷ vs) = v

-- What arrives on the fabric: the key, the parameters and the payload.
pub record Query : Type 0 where
  pub key : Str
  pub parameters : Str
  pub payload : Option Str

module _ (py : Python) {S : Type 0} (adapter : Adapter py.F S) (bundle : Bundle py.F S) where
  open py use {F, parse_qs, repr}

  unfoldable pub asset_reply : Str → Str → Action S (Reply F)
  asset_reply key [] = pure (refuse key (codes "asset needs a uri"))
  asset_reply key uri = do
    mesh ← bundle.asset uri
    pure (record {
      key = key;
      payload = raw mesh;
      encoding = codes "application/octet-stream";
      ok = true;
    })

  -- The body of the `try` block.
  unfoldable pub handle : Verb → Str → Query → Action S (Reply F)
  handle Verb.status key q = do
    held ← adapter.status
    pure (
        envelope key
          (merge (field (codes "ok") (bool true) (field (codes "kind") (str adapter.kind) end))
            held)
          true)
  handle Verb.description key q = do
    urdf ← bundle.urdf
    pure (record { key = key; payload = raw urdf; encoding = codes "text/xml"; ok = true })
  handle Verb.asset key q = asset_reply key (first_value (parse_qs q.parameters (codes "uri")))
  handle Verb.calibration key q = Equipment.calibration py bundle key (body_of py q.payload)
  handle Verb.episodes key q =
      let dataset = first_value (parse_qs q.parameters (codes "dataset")) in
      if valid_dataset dataset
      then (do
        found ← adapter.episodes dataset
        pure (
            envelope key
              (field (codes "ok") (bool true)
                (field (codes "dataset") (str dataset) (field (codes "episodes") (arr found) end)))
              true))
      else pure (refuse key (codes "invalid dataset name"))
  handle Verb.up key q = Handlers.answer_with py adapter key adapter.up
  handle Verb.down key q = Handlers.answer_with py adapter key adapter.down
  handle Verb.stop key q = Handlers.answer_with py adapter key adapter.stop
  handle Verb.config key q = Handlers.config py adapter key (body_of py q.payload)
  handle Verb.mode key q = Handlers.mode py adapter key (body_of py q.payload)
  handle Verb.collect key q = Handlers.collect py adapter key (body_of py q.payload)
  handle Verb.pose key q = Equipment.pose py adapter key (body_of py q.payload)
  handle Verb.perception_debug key q =
      Equipment.perception_debug py adapter key (body_of py q.payload)
  handle Verb.session key q = Equipment.session py adapter key (body_of py q.payload)
  handle Verb.record_take key q = Equipment.record_take py adapter key (body_of py q.payload)

  -- `except AdapterError`: the caller gets the robot's own reason.
  abbrev pub caught : Str → Result (Reply F) → Reply F
  caught key (ok reply) = reply
  caught key (err message) = refuse key message

  unfoldable pub routed : Option Verb → Str → Query → S → Reply F × S
  routed none namespace q s = (refuse q.key (codes "unknown key " ++ repr q.key), s)
  routed (some verb) namespace q s =
      let key = key_of namespace (verb_name verb) in
      let (r, s') = handle verb key q s in (caught key r, s')

  unfoldable pub answer : Str → Query → S → Reply F × S
  unfolding routed
  answer namespace q s = routed (verb_of q.key namespace) namespace q s
