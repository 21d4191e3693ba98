-- ===== src/Verbs/Router/Replies.antt =====
-- src/fm_robot_agent/verbs.py: every reply goes out under this robot's own key, and a key that is
-- not for this robot reaches nothing.
use fm_robot_agent.Prelude.{
  ◌≡◌, refl, Bool, true, false, Option, none, some, [], ◌∷◌, ◌++◌, codes, if◌then◌else◌,
}
use fm_robot_agent.Text.{Str, str_eq}
use fm_robot_agent.Dict.{Dict}
use fm_robot_agent.Json.{Json, null, bool, str, Fields}
use fm_robot_agent.Protocol.{
  Action, Result, ok, err, resume, pure, ◌>>=◌, Outcome, Adapter, Bundle, Python,
}
use fm_robot_agent.Verbs.Key.{Verb, verb_name, verb_of, key_of, is_read, discovery_segment}
use fm_robot_agent.Verbs.Key.Addressing.{verb_of-discovery}
use fm_robot_agent.Verbs.Reply.{Reply, raw, envelope, refuse, outcome}
use fm_robot_agent.Verbs.Checks.{Checked, accepted, rejected}
use fm_robot_agent.Verbs.Handlers
use fm_robot_agent.Verbs.Handlers.{refused, answer_with}
use fm_robot_agent.Verbs.Equipment
use fm_robot_agent.Verbs.Router.{Query, asset_reply, handle, caught, routed, answer}

-- Whatever a call returns, the reply that it ends in goes out under `key`.
abbrev Keyed : {F : Type 0} → Str → Result (Reply F) → Type 0
Keyed key (ok r) = r.key ≡ key
Keyed key (err m) = Unit

record RepliesTo {F S : Type 0} (key : Str) (m : Action S (Reply F)) : Type 0 where
  at : (s : S) → Keyed key (m s).0

module _ {F S : Type 0} (key : Str) where
  RepliesTo-if :
      (b : Bool) (m n : Action S (Reply F))
      → RepliesTo key m
      → RepliesTo key n
      → RepliesTo key (if b then m else n)
  RepliesTo-if true m n h k = h
  RepliesTo-if false m n h k = k

  RepliesTo-refuse : (message : Str) → RepliesTo {S = S} key (pure (refuse {F = F} key message))
  unfolding refuse
  RepliesTo-refuse message = record { at = λ s. refl }

  module _ {A : Type 0} (f : A → Reply F) (h : (a : A) → (f a).key ≡ key) where
    resumed : (r : Result A) (s : S) → Keyed key (resume (λ a. pure (f a)) r s).0
    resumed (ok a) s = h a
    resumed (err m) s = tt

    RepliesTo-bind : (call : Action S A) → RepliesTo key (call >>= λ a. pure (f a))
    RepliesTo-bind call = record { at = λ s. let (r, s') = call s in resumed r s' }

  RepliesTo-outcome :
      (call : Action S (Outcome F)) → RepliesTo key (call >>= λ o. pure (outcome key o))
  RepliesTo-outcome call = RepliesTo-bind (outcome key) (λ o. unfold outcome in refl) call

  RepliesTo-envelope :
      {A : Type 0} (call : Action S A) (body : A → Fields F)
      → RepliesTo key (call >>= λ a. pure (envelope key (body a) true))
  RepliesTo-envelope call body =
      RepliesTo-bind (λ a. envelope key (body a) true) (λ a. unfold envelope in refl) call

ruleset reply_rules = (RepliesTo-if, RepliesTo-refuse, RepliesTo-outcome, RepliesTo-envelope)

module _ (py : Python) {S : Type 0} (adapter : Adapter py.F S) (key : Str) where
  open py use {F}

  config_set-RepliesTo :
      (k : Json F) (v : Option Str) → RepliesTo key (Handlers.config_set py adapter key k v)
  unfolding Handlers.config_set
  config_set-RepliesTo (str (c ∷ k)) (some (d ∷ v)) = search reply_rules
  config_set-RepliesTo (str (c ∷ k)) (some []) = search reply_rules
  config_set-RepliesTo (str (c ∷ k)) none = search reply_rules
  config_set-RepliesTo (str []) v = search reply_rules
  config_set-RepliesTo null v = search reply_rules
  config_set-RepliesTo (bool b) v = search reply_rules
  config_set-RepliesTo _ v = search reply_rules

  config-RepliesTo : (body : Fields F) → RepliesTo key (Handlers.config py adapter key body)
  unfolding Handlers.config
  config-RepliesTo body = search (reply_rules, config_set-RepliesTo) depth 8

  collect_start-RepliesTo :
      (c : Checked (Dict Str)) → RepliesTo key (Handlers.collect_start py adapter key c)
  unfolding Handlers.collect_start
  collect_start-RepliesTo (accepted options) = search reply_rules
  collect_start-RepliesTo (rejected message) = search reply_rules

  collect_other-RepliesTo :
      (action : Json F) → RepliesTo key (Handlers.collect_other py adapter key action)
  unfolding Handlers.collect_other
  collect_other-RepliesTo (str action) = search reply_rules
  collect_other-RepliesTo _ = search reply_rules

  collect-RepliesTo : (body : Fields F) → RepliesTo key (Handlers.collect py adapter key body)
  unfolding Handlers.collect
  collect-RepliesTo body =
      search (reply_rules, collect_start-RepliesTo, collect_other-RepliesTo) depth 8

  mode_with-RepliesTo :
      (value : Str) (c : Checked (Dict Str))
      → RepliesTo key (Handlers.mode_with py adapter key value c)
  unfolding Handlers.mode_with
  mode_with-RepliesTo value (rejected message) = search reply_rules
  mode_with-RepliesTo value (accepted args) = search reply_rules

  mode_value-RepliesTo :
      (v : Json F) (body : Fields F) → RepliesTo key (Handlers.mode_value py adapter key v body)
  unfolding Handlers.mode_value
  mode_value-RepliesTo (str (c ∷ v)) body = search (reply_rules, mode_with-RepliesTo)
  mode_value-RepliesTo (str []) body = search reply_rules
  mode_value-RepliesTo _ body = search reply_rules

  mode-RepliesTo : (body : Fields F) → RepliesTo key (Handlers.mode py adapter key body)
  unfolding Handlers.mode
  mode-RepliesTo body = search mode_value-RepliesTo

  pose-RepliesTo : (body : Fields F) → RepliesTo key (Equipment.pose py adapter key body)
  unfolding Equipment.pose
  pose-RepliesTo body = search reply_rules depth 8

  perception_debug-RepliesTo :
      (body : Fields F) → RepliesTo key (Equipment.perception_debug py adapter key body)
  unfolding Equipment.perception_debug
  perception_debug-RepliesTo body =
      elim (Equipment.enabled_of body)
        as (λ o. RepliesTo key (elim o [
          | none ↦
              refused py adapter key
                (codes "perception_debug takes {\"enabled\": true|false} and nothing else")
          | some b ↦ answer_with py adapter key (adapter.perception_debug b)
        ])) [ none ↦ search reply_rules | some b ↦ search reply_rules ]

  session-RepliesTo : (body : Fields F) → RepliesTo key (Equipment.session py adapter key body)
  unfolding Equipment.session
  session-RepliesTo body = search reply_rules depth 8

  record_take-RepliesTo :
      (body : Fields F) → RepliesTo key (Equipment.record_take py adapter key body)
  unfolding Equipment.record_take
  record_take-RepliesTo body = search reply_rules depth 12

module _ (py : Python) {S : Type 0} (adapter : Adapter py.F S) (bundle : Bundle py.F S) where
  open py use {F}

  calibration-RepliesTo :
      (key : Str) (body : Fields F) → RepliesTo key (Equipment.calibration py bundle key body)
  unfolding Equipment.calibration
  calibration-RepliesTo key body = search reply_rules depth 10

  asset-RepliesTo : (key uri : Str) → RepliesTo key (asset_reply py adapter bundle key uri)
  unfolding asset_reply
  asset-RepliesTo key [] = search reply_rules
  asset-RepliesTo key (c ∷ uri) =
      RepliesTo-bind key
        (λ mesh. record {
          key = key;
          payload = raw mesh;
          encoding = codes "application/octet-stream";
          ok = true;
        })
        (λ m. refl) (bundle.asset (c ∷ uri))

  handle-RepliesTo :
      (v : Verb) (key : Str) (q : Query) → RepliesTo key (handle py adapter bundle v key q)
  unfolding handle
  handle-RepliesTo Verb.status key q = search reply_rules
  handle-RepliesTo Verb.description key q =
      RepliesTo-bind key
        (λ urdf. record { key = key; payload = raw urdf; encoding = codes "text/xml"; ok = true })
        (λ u. refl) bundle.urdf
  handle-RepliesTo Verb.asset key q = search asset-RepliesTo
  handle-RepliesTo Verb.calibration key q = search calibration-RepliesTo
  handle-RepliesTo Verb.episodes key q = search reply_rules
  handle-RepliesTo Verb.config key q = search config-RepliesTo
  handle-RepliesTo Verb.mode key q = search mode-RepliesTo
  handle-RepliesTo Verb.collect key q = search collect-RepliesTo
  handle-RepliesTo Verb.pose key q = search pose-RepliesTo
  handle-RepliesTo Verb.perception_debug key q = search perception_debug-RepliesTo
  handle-RepliesTo Verb.session key q = search session-RepliesTo
  handle-RepliesTo Verb.record_take key q = search record_take-RepliesTo
  handle-RepliesTo _ key q = search reply_rules

  caught-key :
      (key : Str) (r : Result (Reply F)) → Keyed key r → (caught py adapter bundle key r).key ≡ key
  caught-key key (ok r) h = h
  caught-key key (err m) h = unfold refuse in refl

  -- Whatever a verb does, and where it raises too, the reply to a key that names it stands under
  -- the robot's own key of the verb.
  pub key-answer :
      (namespace : Str) (q : Query) (s : S) (v : Verb)
      → verb_of q.key namespace ≡ some v
      → (answer py adapter bundle namespace q s).0.key ≡ key_of namespace (verb_name v)
  unfolding answer routed
  key-answer namespace q s v h = rw h (
      caught-key (key_of namespace (verb_name v)) _
        ((handle-RepliesTo v (key_of namespace (verb_name v)) q).at s))

  -- A command sent to the wildcard of discovery, on a robot that is not itself named `*`, is
  -- refused as an unknown key and leaves the robot's state alone.
  pub discovery_commands_nothing :
      (namespace : Str) (q : Query) (s : S) (v : Verb)
      → str_eq discovery_segment namespace ≡ false
      → q.key ≡ key_of discovery_segment (verb_name v)
      → is_read v ≡ false
      → answer py adapter bundle namespace q s
        ≡ (refuse q.key (codes "unknown key " ++ py.repr q.key), s)
  unfolding answer routed
  discovery_commands_nothing namespace q s v other e write =
      let h : verb_of q.key namespace ≡ none = rw (e, verb_of-discovery namespace v other, write) in
      rw h
