-- ===== src/Calibration/Store/Whole.antt =====
-- src/fm_robot_agent/calibration.py: `write` as a whole, checks and files.
use fm_robot_agent.Prelude.{
  ◌≡◌, refl, ap, ◌∙◌, subst, ◌⊎◌, inl, inr, Bool, true, false, not, ◌&&◌, Option, none, some, leb,
  length, if◌then◌else◌,
}
use fm_robot_agent.Text.{Str}
use fm_robot_agent.Json.{Json, null, bool, int, float, str, arr, obj}
use fm_robot_agent.Protocol.{Result, ok, err}
use fm_robot_agent.Calibration.{
  Number, real, Reals, Lens, Mount, check_lens, check_mount, is_camera,
}
use fm_robot_agent.Calibration.Ranges.{
  Exact, GoodLens, GoodMount, check_lens-GoodLens, ok_injective,
}
use fm_robot_agent.Calibration.Stored.{check_mount-GoodMount}
use fm_robot_agent.Calibration.Store.{
  Disk, Ending, adapter_error, Codec, Entry, entry_json, load, newer, updated, store_entry, broken,
  write_checked, optional, checked_parts, is_null, write, pure, replace,
}
use fm_robot_agent.Calibration.Store.Writes.{
  Ends, on_return, on_error, Kept, Swapped, chain, replace-Swapped, weaken,
}
use fm_robot_agent.Calibration.Store.Reads.{Holds, GoodEntry, load-GoodEntry, load_stored}

module _ (reals : Reals) (codec : Codec reals.F) where
  open reals use {F}

  -- The entry is what the camera's file reads as, and the file before it is kept.
  abbrev pub Stores : Option Str → Entry F → Disk → Type 0
  Stores old entry d = (load reals codec d.live ≡ some entry) × Kept old d.prev

  -- The camera's file is the old one, or one that checks out.
  abbrev pub Whole : Option Str → Disk → Type 0
  Whole old d = (d.live ≡ old) ⊎ ((entry : Entry F) × (load reals codec d.live ≡ some entry))

module _ (reals : Reals) (codec : Codec reals.F)
    (float_same : (x : reals.F) → reals.to_float (real x) ≡ x)
    (stays_above : (low v : Number reals.F)
      → Exact reals low
      → reals.le low v ≡ true
      → reals.le low (real (reals.to_float v)) ≡ true)
    (stays_below : (high v : Number reals.F)
      → Exact reals high
      → reals.le v high ≡ true
      → reals.le (real (reals.to_float v)) high ≡ true)
    (reads_back : (entry : Entry reals.F)
      → GoodEntry reals entry
      → (codec.loads (codec.dumps (entry_json entry)) ≡ some (entry_json entry))
        × (leb (length (codec.dumps (entry_json entry))) 65536 ≡ true)) where
  open reals use {F}

  read_as :
      (entry : Entry F)
      → GoodEntry reals entry
      → (live : Option Str) → live ≡ some (codec.dumps (entry_json entry))
      → load reals codec live ≡ some entry
  read_as entry good live e =
      ap (load reals codec) e
      ∙ load_stored reals codec float_same stays_above stays_below reads_back entry good

  store_entry-Stores :
      (camera : Str) (entry : Entry F) (d : Disk)
      → GoodEntry reals entry
      → Ends
          (Stores reals codec d.live)
          (Whole reals codec d.live)
          (store_entry reals codec camera entry d)
  unfolding store_entry
  store_entry-Stores camera entry d good =
      chain (replace camera (codec.dumps (entry_json entry))) (λ _. pure entry) d
        (weaken {P' = λ _. Swapped d.live (codec.dumps (entry_json entry))} _
          (replace-Swapped camera (codec.dumps (entry_json entry)) d) (λ _ _ s. s)
          (λ d' o. elim o as (λ _. Whole reals codec d.live d') [
            | inl e ↦ inl e
            | inr e ↦ inr (entry, read_as entry good d'.live e)
          ]))
        (λ _ d' s. on_return entry d' (read_as entry good d'.live (s.0), s.1))

  newer-Holds :
      {A : Type 0} (P : A → Type 0) (new old : Option A)
      → Holds P new
      → Holds P old
      → Holds P (newer reals codec new old)
  newer-Holds P none old hn ho = ho
  newer-Holds P (some a) old hn ho = hn

  updated-GoodEntry :
      (current : Option (Entry F)) (lens : Option (Lens F)) (mount : Option (Mount F))
      → ((entry : Entry F) → current ≡ some entry → GoodEntry reals entry)
      → Holds (GoodLens reals) lens
      → Holds (GoodMount reals) mount
      → GoodEntry reals (updated reals codec current lens mount)
  unfolding updated
  updated-GoodEntry none lens mount hc hl hm =
      (newer-Holds (GoodLens reals) lens none hl tt, newer-Holds (GoodMount reals) mount none hm tt)
  updated-GoodEntry (some entry) lens mount hc hl hm =
      let (gl, gm) = hc entry refl in
      (
        newer-Holds (GoodLens reals) lens entry.lens hl gl,
        newer-Holds (GoodMount reals) mount entry.mount hm gm,
      )

  refused_Whole :
      (m : Str) (d : Disk)
      → Ends (Stores reals codec d.live) (Whole reals codec d.live) (adapter_error m, d)
  refused_Whole m d = on_error m d (inl refl)

  refused_if :
      (b : Bool) (m : Str) (d : Disk) (r : Ending (Entry F) × Disk)
      → Ends (Stores reals codec d.live) (Whole reals codec d.live) r
      → Ends
          (Stores reals codec d.live)
          (Whole reals codec d.live)
          (if b then (adapter_error m, d) else r)
  refused_if true m d r h = refused_Whole m d
  refused_if false m d r h = h

  write_checked-Stores :
      (camera : Str) (lens : Option (Lens F)) (mount : Option (Mount F)) (d : Disk)
      → Holds (GoodLens reals) lens
      → Holds (GoodMount reals) mount
      → Ends
          (Stores reals codec d.live)
          (Whole reals codec d.live)
          (write_checked reals codec camera lens mount d)
  unfolding write_checked
  write_checked-Stores camera lens mount d hl hm =
      refused_if (broken reals codec d.live (load reals codec d.live)) _ d _ (
        store_entry-Stores camera (updated reals codec (load reals codec d.live) lens mount) d (
          updated-GoodEntry (load reals codec d.live) lens mount
            (λ entry e.
              load-GoodEntry reals codec float_same stays_above stays_below reads_back d.live entry
                e)
            hl hm))

  optional-Holds :
      {A : Type 0} (P : A → Type 0) (check : Json F → Result A)
      → ((j : Json F) (a : A) → check j ≡ ok a → P a)
      → (j : Json F) (a : Option A) → optional reals codec check j ≡ ok a
      → Holds P a
  optional-Holds {A} P check h j a e = go j e
    where
      tried :
          (r : Result A) (j : Json F)
          → check j ≡ r
          → (elim r as (λ _. Result (Option A)) [ ok a ↦ ok (some a) | err m ↦ err m ]) ≡ ok a
          → Holds P a
      tried (ok x) j e1 e2 = subst (Holds P) (ok_injective e2) (h j x e1)
      tried (err m) j e1 e2 = cc

      go : (j : Json F) → optional reals codec check j ≡ ok a → Holds P a
      go null e = subst (Holds P) (ok_injective e) tt
      go (bool b) e = tried _ (bool b) refl e
      go (int z) e = tried _ (int z) refl e
      go (float x) e = tried _ (float x) refl e
      go (str s) e = tried _ (str s) refl e
      go (arr items) e = tried _ (arr items) refl e
      go (obj fields) e = tried _ (obj fields) refl e

  checked_parts-Stores :
      (camera : Str) (lens : Result (Option (Lens F))) (mount : Result (Option (Mount F)))
      (d : Disk)
      → ((l : Option (Lens F)) → lens ≡ ok l → Holds (GoodLens reals) l)
      → ((m : Option (Mount F)) → mount ≡ ok m → Holds (GoodMount reals) m)
      → Ends
          (Stores reals codec d.live)
          (Whole reals codec d.live)
          (checked_parts reals codec camera lens mount d)
  checked_parts-Stores camera (err m) mount d hl hm = refused_Whole m d
  checked_parts-Stores camera (ok lens) (err m) d hl hm = refused_Whole m d
  checked_parts-Stores camera (ok lens) (ok mount) d hl hm =
      write_checked-Stores camera lens mount d (hl lens refl) (hm mount refl)

  -- For floats to which rounding passes no bound that is a float, and a codec that reads back what
  -- it has written of a checked entry in at most 64 KiB: where a write of a camera's calibration
  -- answers with an entry, the camera's file reads as that entry and the file it replaced, if any,
  -- is kept beside it; where the write is refused or fails, or the process dies in it, the
  -- camera's file is as it was or reads as an entry whose parts check out.
  pub write-Stores :
      (camera : Str) (lens mount : Json F) (d : Disk)
      → Ends
          (Stores reals codec d.live)
          (Whole reals codec d.live)
          (write reals codec camera lens mount d)
  unfolding write
  write-Stores camera lens mount d = refused_if (not (is_camera camera)) _ d _ (
      refused_if (not d.armed) _ d _ (
        refused_if (is_null reals codec lens && is_null reals codec mount) _ d _ (
          checked_parts-Stores camera _ _ d
            (λ l e.
              optional-Holds (GoodLens reals) (check_lens reals)
                (λ j a h. check_lens-GoodLens reals float_same stays_above stays_below j a h) lens l
                e)
            (λ m e.
              optional-Holds (GoodMount reals) (check_mount reals)
                (λ j a h. check_mount-GoodMount reals float_same stays_above stays_below j a h)
                mount m e))))
