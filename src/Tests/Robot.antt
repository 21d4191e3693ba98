-- ===== src/Tests/Robot.antt =====
-- A robot that counts the calls it gets, behind the interface of src/fm_robot_agent/protocol.py, with
-- floats as thousandths.
use fm_robot_agent.Prelude.{ℕ, Bool, ◌+◌, ◌*◌, ◌/◌, ◌^◌, true, false, none, [], leb, ◌==◌, codes}
use fm_robot_agent.Int.{ℤ, pos, negsuc, show_ℕ}
use fm_robot_agent.Json.{str, Fields, end, field, nil}
use fm_robot_agent.Protocol.{Action, ok, Outcome, Adapter, Bundle, Python}

abbrev pub le_int : ℤ → ℕ → Bool
le_int (pos n) x = leb (n * 1000) x
le_int (negsuc n) x = true

abbrev pub int_le : ℕ → ℤ → Bool
int_le x (pos n) = leb x (n * 1000)
int_le x (negsuc n) = false

abbrev pub py : Python
py = record {
  F = ℕ;
  is_zero = λ x. x == 0;
  literal = λ n k. n * 1000 / 10 ^ k;
  le_float = leb;
  le_int_float = le_int;
  le_float_int = int_le;
  str_float = show_ℕ;
  fixed_float = show_ℕ;
  repr = λ s. s;
  loads = λ s. none;
  parse_qs = λ s k. [];
}

abbrev pub counted : Action ℕ (Outcome ℕ)
counted n = (ok (record { ok = true; message = codes "done"; detail = end }), n + 1)

abbrev pub robot : Adapter ℕ ℕ
robot = record {
  kind = codes "counter";
  status = λ n. (ok end, n);
  up = counted;
  down = counted;
  set_mode = λ m args. counted;
  config_read = λ n. (ok [], n);
  config_write = λ k v. counted;
  config_rollback = counted;
  session = λ a d. counted;
  record_take = λ a d n e s. counted;
  pose = λ a n. counted;
  collect = λ a o. counted;
  perception_debug = λ b. counted;
  stop = counted;
  episodes = λ d n. (ok nil, n);
}

abbrev pub bundle : Bundle ℕ ℕ
bundle = record {
  urdf = λ n. (ok [], n);
  asset = λ u n. (ok [], n);
  read_all = λ n. (ok end, n);
  write = λ k v w n. (ok end, n);
}

-- `{"action": "stop"}`
abbrev pub stop_body : Fields ℕ
stop_body = field (codes "action") (str (codes "stop")) end
