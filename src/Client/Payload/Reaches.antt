-- ===== src/Client/Payload/Reaches.antt =====
-- src/fm_robot_agent/client.py and verbs.py: what a typed `config set` makes the router do.
use fm_robot_agent.Prelude.{ℕ, ◌≡◌, true, some, ◌∷◌, ◌++◌, leb, codes, length}
use fm_robot_agent.Text.{Str, str_eq}
use fm_robot_agent.Text.Strip.{Without, before-append, after-append}
use fm_robot_agent.Json.{str, Fields, end, field, find, get_json}
use fm_robot_agent.Protocol.{Adapter, Python}
use fm_robot_agent.Verbs.Values.{scalar_text}
use fm_robot_agent.Verbs.Checks.{max_value_len}
use fm_robot_agent.Verbs.Handlers.{answer_with, config, config_set}
use fm_robot_agent.Client.Payload.{Args, body, config_body, build_payload}

-- The body of `config set NAME=VALUE`.
abbrev pub set_request : {F : Type 0} → Str → Str → Fields F
set_request name value =
    field (codes "action") (str (codes "set"))
      (field (codes "key") (str name) (field (codes "value") (str value) end))

module _ {F : Type 0} where
  build_payload-set :
      (args : Args F) (c : ℕ) (name value : Str)
      → args.value ≡ some (codes "set")
      → args.assignment ≡ some ((c ∷ name) ++ (61 ∷ value))
      → Without 61 (c ∷ name)
      → build_payload (codes "config") args ≡ body (set_request (c ∷ name) value)
  unfolding build_payload config_body str_eq
  build_payload-set args c name value set given h =
      rw (set, given, before-append 61 (c ∷ name) value h, after-append 61 (c ∷ name) value h)

module _ (py : Python) {S : Type 0} (adapter : Adapter py.F S) (key : Str) where
  config-set_request :
      (c d : ℕ) (name value : Str)
      → leb (length (d ∷ value)) max_value_len ≡ true
      → config py adapter key (set_request (c ∷ name) (d ∷ value))
        ≡ answer_with py adapter key (adapter.config_write (c ∷ name) (d ∷ value))
  unfolding config config_set find get_json str_eq scalar_text
  config-set_request c d name value short = rw (short)

  -- Where a client is given `config set` and a text of a name, an equals sign and a value, the
  -- name neither empty nor with an equals sign and the value of 1 to 256 characters, it builds a
  -- body on which the router writes that value under that name.
  pub build_payload-config_write :
      (args : Args py.F) (c d : ℕ) (name value : Str)
      → args.value ≡ some (codes "set")
      → args.assignment ≡ some ((c ∷ name) ++ (61 ∷ d ∷ value))
      → Without 61 (c ∷ name)
      → leb (length (d ∷ value)) max_value_len ≡ true
      → (build_payload (codes "config") args ≡ body (set_request (c ∷ name) (d ∷ value)))
        × (config py adapter key (set_request (c ∷ name) (d ∷ value))
            ≡ answer_with py adapter key (adapter.config_write (c ∷ name) (d ∷ value)))
  build_payload-config_write args c d name value set given h short = (
    build_payload-set args c name (d ∷ value) set given h,
    config-set_request c d name value short,
  )
