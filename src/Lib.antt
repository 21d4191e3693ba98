-- ===== src/Lib.antt =====
-- The First Motive robot agent: what a robot's own process answers to the fleet, and how it changes
-- the robot's configuration without losing the robot.
--
-- A query arrives under a key such as `fm/robot/NAME/stop`. src/fm_robot_agent/verbs.py finds the
-- verb, checks the body and makes one call on the robot's adapter, whose interface is
-- src/fm_robot_agent/protocol.py. The Anvil's adapter, src/fm_robot_agent/anvil.py, answers the verb
-- `config` by writing env files with src/fm_robot_agent/config.py; a change that can take telemetry
-- away is journalled first and undone unless telemetry is seen after it.
--
-- Prelude, Text, Dict, Int and Json are shared. A text is a list of character codes; `Text` has the
-- string methods that the program uses, `Dict` a dictionary in insertion order, `Json` the values
-- that `json` reads, over any type of floats.
--
-- Protocol: `RobotAdapter` as a record of actions over any state; `AdapterError` is a result.
-- Verbs: `Key` is `verb_of` and the keys of replies; `Values` and `Checks` the tests on a body;
-- `Handlers` and `Equipment` the functions `_mode`, `_config`, `_collect`, `_pose`,
-- `_calibration`, `_perception_debug` and the branches for `session` and `record`; `Router` is
-- `answer`. Floats, `json.loads`, `repr` and `parse_qs` are the fields of `Protocol.Python`.
-- Config: the classes of a key; `EnvFile` is `env_values` and `env_replaced`.
-- Anvil: `World` is the host: the two env files and the journal, their temporary neighbours, which of
-- them this process can replace, and a list of decisions that says of each call to the operating
-- system whether it is done, fails or is the death of the process; beyond its end calls are done.
-- `Pair` is `_paired_edits`, `_write_paired` and `_fleet_write`; `Severing` is `Journal`, `restore`,
-- `_write_severing`, `_restore_files`, `_revert`, `config_rollback`, `finish_open_change`,
-- `_restart_data_plane` and `_data_plane_returns`, the last on a list of what each turn of its loop
-- sees. The command that root runs to write the fleet's file is a parameter, `Pair.Writer`, of what
-- it leaves in the file where it succeeds and where it does not; the text of the journal is a codec.
-- `Calls` and `Host` say what calls keep and ensure, `Pair/Loops` what the three loops of a paired
-- write do, `Severing/Recoverable` what a stopped write leaves and `Severing/Restart` what the next
-- start makes of it. `Mode` is `read_mode`; `Keys` is `CONFIG_CLASSES`, `_validated`, `config_read`
-- and `config_write`.
--
-- Fake: src/fm_robot_agent/fake.py, the robot that says yes; `Capture` has its takes, loop and poses.
-- Client: `namespace_of` and `device_of` of src/fm_robot_agent/client.py; Client/Usage is the checks
-- that `main` makes on the command line and the key that it queries, and Client/Payload the body that
-- `build_payload` makes.
-- Card: `read_card` of src/fm_robot_agent/card.py, on what stands at the path of a card.
-- Pose: src/fm_robot_agent/pose_move.py, which moves both arms and gives them back. `Controllers` is
-- the switching of controllers; `Move` has the robot, whose answers are functions of all the calls
-- made before, and exceptions and interrupts as results; `Move/Steps` and `Move/Run` are the class
-- `Mover`. What holds at each of the ends of a call is `Move/Ends`. `Book` is src/fm_robot_agent/arm_poses.py.
--
-- Cdr: src/fm_robot_agent/cdr.py, its writer on lists of bytes; `Reader` is a reader made from the
-- description of the format there, `Layout` where values stand, `Writes` what a reader gets back.
-- Calibration: src/fm_robot_agent/calibration.py. Its root has the checks; `Store` is
-- `CalibrationStore` on the three files of one camera, with decisions for the calls of the operating
-- system as for the Anvil's host. `Stored` and `Store/Reads` say that what is stored checks out again.
-- Stage: `_swap` of src/fm_robot_agent/stage.py, on directories as functions of a name; `Atomic` is
-- what its loops do with one name, `Once` that none is moved twice.
--
-- No fuel is used but in the decimal text of a number, where one round for each unit is enough.
--
-- Not modelled: printing, the `detail` of the Anvil's answers and the texts of operating-system
-- errors; the Anvil's motion, collection, recording and status, and its probe of telemetry in a run
-- without a session, which asks the container; the Axol and the SO-101; the client's parser and
-- session; the path of a card, the router's endpoint and the description bundle; the checks on a
-- staged checkout; the listing of calibrations, and the service around the router.
pub mod Prelude
pub mod Text
pub mod Dict
pub mod Config
pub mod Int
pub mod Json
pub mod Protocol
pub mod Verbs
pub mod Anvil
pub mod Fake
pub mod Client
pub mod Card
pub mod Pose
pub mod Cdr
pub mod Stage
pub mod Calibration
pub mod Tests
