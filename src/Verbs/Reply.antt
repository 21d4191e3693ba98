-- ===== src/Verbs/Reply.antt =====
-- src/fm_robot_agent/verbs.py: replies. A JSON payload is the dict that `json.dumps` is given.
use fm_robot_agent.Prelude.{Bool, true, false, codes}
use fm_robot_agent.Int.{pos}
use fm_robot_agent.Text.{Str}
use fm_robot_agent.Json.{bool, int, str, Fields, end, field, merge}
use fm_robot_agent.Protocol.{Outcome, schema_version}

pub data Payload (F : Type 0) : Type 0 where
  json : Fields F → Payload F
  raw : Str → Payload F

pub record Reply (F : Type 0) : Type 0 where
  pub key : Str
  pub payload : Payload F
  pub encoding : Str
  pub ok : Bool

module _ {F : Type 0} where
  unfoldable pub envelope : Str → Fields F → Bool → Reply F
  envelope key body ok = record {
    key = key;
    payload = json (merge (field (codes "schema_version") (int (pos schema_version)) end) body);
    encoding = codes "application/json";
    ok = ok;
  }

  unfoldable pub refuse : Str → Str → Reply F
  unfolding envelope
  refuse key message =
      envelope key (field (codes "ok") (bool false) (field (codes "error") (str message) end)) false

  unfoldable pub outcome : Str → Outcome F → Reply F
  unfolding envelope
  outcome key o =
      envelope key
        (merge (field (codes "ok") (bool o.ok) (field (codes "message") (str o.message) end))
          o.detail)
        true
