-- ===== src/Calibration/Store.antt =====
-- src/fm_robot_agent/calibration.py: `CalibrationStore` on the files of one camera: the stored one,
-- the one before it and the temporary one. Each call of the operating system is done, fails or is the
-- death of the process; the text of JSON is a codec. The names of files, and links, are left out.
pub mod Writes
pub mod Reads
pub mod Whole
use fm_robot_agent.Prelude.{
  ℕ, Bool, true, false, not, ◌&&◌, Option, none, some, List, [], ◌∷◌, ◌++◌, codes, leb, length,
  if◌then◌else◌,
}
use fm_robot_agent.Text.{Str}
use fm_robot_agent.Json.{Json, null, bool, int, float, str, arr, obj, Fields, end, field, find}
use fm_robot_agent.Protocol.{Result, ok, err}
use fm_robot_agent.Anvil.World.{Fate, done, fault, death}
use fm_robot_agent.Calibration.{Reals, Lens, Mount, is_camera, check_lens, check_mount}
use fm_robot_agent.Calibration.Dicts.{lens_json, mount_json}

pub record Disk : Type 0 where
  pub live : Option Str
  pub prev : Option Str
  pub temporary : Option Str
  pub armed : Bool
  pub fates : List Fate

pub data Ending (A : Type 0) : Type 0 where
  returned : A → Ending A
  adapter_error : Str → Ending A
  os_error : Ending A
  died : Ending A

abbrev pub M : Type 0 → Type 0
M A = Disk → Ending A × Disk

abbrev pub pure : {A : Type 0} → A → M A
pure a d = (returned a, d)

abbrev pub continue : {A B : Type 0} → (A → M B) → Ending A → Disk → Ending B × Disk
continue f (returned a) d = f a d
continue f (adapter_error m) d = (adapter_error m, d)
continue f os_error d = (os_error, d)
continue f died d = (died, d)

infixl 5 ◌>>=◌ ◌>>◌
abbrev pub ◌>>=◌ : {A B : Type 0} → M A → (A → M B) → M B
◌>>=◌ m f d = let (r, d') = m d in continue f r d'

abbrev pub ◌>>◌ : {A B : Type 0} → M A → M B → M B
m >> n = m >>= λ _. n

-- A call that is done at once or not at all.
abbrev pub act_by : (Disk → Disk) → List Fate → Disk → Ending (Unit {0}) × Disk
act_by f [] d = (returned tt, f d)
act_by f (done ∷ fates) d = (returned tt, f (record d { fates = fates }))
act_by f (fault ∷ fates) d = (os_error, record d { fates = fates })
act_by f (death ∷ fates) d = (died, record d { fates = fates })

-- It changes the files by `f`; beyond the last decision calls are done.
unfoldable pub act : (Disk → Disk) → M (Unit {0})
act f d = act_by f d.fates d

-- `try: m finally: cleanup`
abbrev pub after_all : {A : Type 0} → M (Unit {0}) → Ending A → Disk → Ending A × Disk
after_all cleanup (returned a) d = (cleanup >>= λ _. pure a) d
after_all cleanup (adapter_error m) d = (cleanup >>= λ _. λ d. (adapter_error m, d)) d
after_all cleanup os_error d = (cleanup >>= λ _. λ d. (os_error, d)) d
after_all cleanup died d = (died, d)

abbrev pub finally : {A : Type 0} → M A → M (Unit {0}) → M A
finally m cleanup d = let (r, d') = m d in after_all cleanup r d'

-- `except OSError: raise AdapterError(message) from None`
abbrev pub as_adapter : {A : Type 0} → Str → Ending A → Disk → Ending A × Disk
as_adapter message (returned a) d = (returned a, d)
as_adapter message (adapter_error m) d = (adapter_error m, d)
as_adapter message os_error d = (adapter_error message, d)
as_adapter message died d = (died, d)

abbrev pub set_temporary : Option Str → Disk → Disk
set_temporary t d = record d { temporary = t }

-- `previous.unlink(missing_ok=True)` and `os.link(path, previous)`, where there is a file to keep.
unfoldable pub keep_previous : Option Str → M (Unit {0})
keep_previous none = pure tt
keep_previous (some text) = do
  act (λ d. record d { prev = none })
  act (λ d. record d { prev = d.live })

-- `os.replace(temporary, path)`
unfoldable pub put_live : M (Unit {0})
put_live = act (λ d. record d { live = d.temporary; temporary = none })

-- The inner `try` of `_replace`: a write that fails leaves a temporary file behind.
unfoldable pub write_and_swap : Str → M (Unit {0})
write_and_swap body = do act (set_temporary (some body)); λ d. keep_previous d.live d; put_live

-- The outer `try` of `_replace`: the directory is made, and made durable at the end.
unfoldable pub replace_durably : Str → M (Unit {0})
replace_durably body = do
  act (λ d. d)
  act (set_temporary (some []))
  finally (write_and_swap body) (act (set_temporary none))
  act (λ d. d)

unfoldable pub replace : Str → Str → M (Unit {0})
replace camera body d =
    let (r, d') = replace_durably body d in
    as_adapter (codes "calibration for " ++ camera ++ codes " could not be written") r d'

-- `json.dumps(…, indent=2, sort_keys=True).encode()` and `json.loads`, where it raises nothing.
pub record Codec (F : Type 0) : Type 0 where
  pub dumps : Json F → Str
  pub loads : Str → Option (Json F)

pub record Entry (F : Type 0) : Type 0 where
  pub lens : Option (Lens F)
  pub mount : Option (Mount F)

-- What is stored, its keys in their order.
unfoldable pub entry_json : {F : Type 0} → Entry F → Json F
entry_json entry = obj (elim entry.lens [
  | none ↦ elim entry.mount [ none ↦ end | some m ↦ field (codes "mount") (mount_json m) end ]
  | some l ↦
      field (codes "lens") (lens_json l)
        (elim entry.mount [ none ↦ end | some m ↦ field (codes "mount") (mount_json m) end ])
])

module _ (reals : Reals) (codec : Codec reals.F) where
  open reals use {F}

  -- Nothing where a part is missing, and no entry where a part does not check out.
  abbrev pub part : {A : Type 0} → (Json F → Result A) → Option (Json F) → Option (Option A)
  part check none = some none
  part check (some j) = elim (check j) [ ok a ↦ some (some a) | err m ↦ none ]

  abbrev pub entry_of : Option (Option (Lens F)) → Option (Option (Mount F)) → Option (Entry F)
  entry_of none mount = none
  entry_of (some lens) none = none
  entry_of (some lens) (some mount) = some (record { lens = lens; mount = mount })

  abbrev pub parsed : Option (Json F) → Option (Entry F)
  parsed (some (obj fields)) =
      entry_of (part (check_lens reals) (find (codes "lens") fields))
        (part (check_mount reals) (find (codes "mount") fields))
  parsed _ = none

  -- `_load`: no more than 64 KiB are read.
  unfoldable pub load : Option Str → Option (Entry F)
  load none = none
  load (some text) = if leb (length text) 65536 then parsed (codec.loads text) else none

  abbrev pub newer : {A : Type 0} → Option A → Option A → Option A
  newer (some new) old = some new
  newer none old = old

  abbrev pub old_or_empty : Option (Entry F) → Entry F
  old_or_empty none = record { lens = none; mount = none }
  old_or_empty (some entry) = entry

  -- `entry`, from what was stored.
  unfoldable pub updated : Option (Entry F) → Option (Lens F) → Option (Mount F) → Entry F
  updated current lens mount = record {
    lens = newer lens (old_or_empty current).lens;
    mount = newer mount (old_or_empty current).mount;
  }

  unfoldable pub store_entry : Str → Entry F → M (Entry F)
  store_entry camera entry = do replace camera (codec.dumps (entry_json entry)); pure entry

  abbrev pub broken : Option Str → Option (Entry F) → Bool
  broken (some text) none = true
  broken _ _ = false

  -- `write` under its lock.
  unfoldable pub write_checked : Str → Option (Lens F) → Option (Mount F) → M (Entry F)
  write_checked camera lens mount d =
      if broken d.live (load d.live)
      then (
        adapter_error (
            codes "the stored calibration for "
            ++ camera
            ++ codes " does not check out; restore or remove it"),
        d,
      )
      else store_entry camera (updated (load d.live) lens mount) d

  abbrev pub optional : {A : Type 0} → (Json F → Result A) → Json F → Result (Option A)
  optional check null = ok none
  optional check j = elim (check j) [ ok a ↦ ok (some a) | err m ↦ err m ]

  abbrev pub checked_parts :
      Str → Result (Option (Lens F)) → Result (Option (Mount F)) → M (Entry F)
  checked_parts camera (err m) mount d = (adapter_error m, d)
  checked_parts camera (ok lens) (err m) d = (adapter_error m, d)
  checked_parts camera (ok lens) (ok mount) d = write_checked camera lens mount d

  abbrev pub is_null : Json F → Bool
  is_null null = true
  is_null _ = false

  -- `write`, where `None` stands for what is not given.
  unfoldable pub write : Str → Json F → Json F → M (Entry F)
  write camera lens mount d =
      if not (is_camera camera)
      then (adapter_error (codes "camera must be a camera name, e.g. cam_chest"), d)
      else if not d.armed
      then (adapter_error (codes "calibration writes are not armed on this robot"), d)
      else if is_null lens && is_null mount
      then (adapter_error (codes "set needs a lens, a mount, or both"), d)
      else checked_parts camera (optional (check_lens reals) lens)
          (optional (check_mount reals) mount) d
