-- ===== src/Calibration/Store/Reads.antt =====
-- src/fm_robot_agent/calibration.py: a file that `write` leaves reads back as the entry it answered.
use fm_robot_agent.Prelude.{
  some_injective, ◌≡◌, refl, ap, ◌∙◌, subst, Bool, true, false, Option, none, some, leb, length,
  if◌then◌else◌,
}
use fm_robot_agent.Text.{Str, str_eq}
use fm_robot_agent.Json.{Json, null, bool, int, float, str, arr, obj, find}
use fm_robot_agent.Protocol.{Result, ok, err}
use fm_robot_agent.Calibration.{Number, real, Reals, Lens, Mount, check_lens, check_mount}
use fm_robot_agent.Calibration.Dicts.{lens_json, mount_json}
use fm_robot_agent.Calibration.Ranges.{Exact, GoodLens, GoodMount, check_lens-GoodLens, if_true}
use fm_robot_agent.Calibration.Stored.{
  check_lens-lens_json, check_mount-mount_json, check_mount-GoodMount,
}
use fm_robot_agent.Calibration.Store.{Codec, Entry, entry_json, part, entry_of, parsed, load}

abbrev pub Holds : {A : Type 0} → (A → Type 0) → Option A → Type 0
Holds P none = Unit {0}
Holds P (some a) = P a

module _ (reals : Reals) where
  open reals use {F}

  abbrev pub GoodEntry : Entry F → Type 0
  GoodEntry entry = Holds (GoodLens reals) entry.lens × Holds (GoodMount reals) entry.mount

module _ (reals : Reals) (codec : Codec reals.F)
    (float_same : (x : reals.F) → reals.to_float (real x) ≡ x)
    (stays_above : (low v : Number reals.F)
      → Exact reals low
      → reals.le low v ≡ true
      → reals.le low (real (reals.to_float v)) ≡ true)
    (stays_below : (high v : Number reals.F)
      → Exact reals high
      → reals.le v high ≡ true
      → reals.le (real (reals.to_float v)) high ≡ true)
    (reads_back : (entry : Entry reals.F)
      → GoodEntry reals entry
      → (codec.loads (codec.dumps (entry_json entry)) ≡ some (entry_json entry))
        × (leb (length (codec.dumps (entry_json entry))) 65536 ≡ true)) where
  open reals use {F}

  part-Holds :
      {A : Type 0} (P : A → Type 0) (check : Json F → Result A)
      → ((j : Json F) (a : A) → check j ≡ ok a → P a)
      → (o : Option (Json F)) (a : Option A) → part reals codec check o ≡ some a
      → Holds P a
  part-Holds P check h none a e = subst (Holds P) (some_injective e) tt
  part-Holds {A} P check h (some j) a e = go (check j) refl e
    where
      go :
          (r : Result A)
          → check j ≡ r
          → (elim r as (λ _. Option (Option A)) [ ok a ↦ some (some a) | err m ↦ none ]) ≡ some a
          → Holds P a
      go (ok x) e1 e2 = subst (Holds P) (some_injective e2) (h j x e1)
      go (err m) e1 e2 = cc

  entry_of-GoodEntry :
      (l : Option (Option (Lens F))) (m : Option (Option (Mount F))) (entry : Entry F)
      → ((lens : Option (Lens F)) → l ≡ some lens → Holds (GoodLens reals) lens)
      → ((mount : Option (Mount F)) → m ≡ some mount → Holds (GoodMount reals) mount)
      → entry_of reals codec l m ≡ some entry
      → GoodEntry reals entry
  entry_of-GoodEntry none m entry hl hm e = cc
  entry_of-GoodEntry (some l) none entry hl hm e = cc
  entry_of-GoodEntry (some l) (some m) entry hl hm e =
      subst (GoodEntry reals) (some_injective e) (hl l refl, hm m refl)

  parsed-GoodEntry :
      (o : Option (Json F)) (entry : Entry F)
      → parsed reals codec o ≡ some entry
      → GoodEntry reals entry
  parsed-GoodEntry (some (obj fields)) entry e =
      entry_of-GoodEntry _ _ entry
        (λ lens h.
          part-Holds (GoodLens reals) (check_lens reals)
            (λ j a k. check_lens-GoodLens reals float_same stays_above stays_below j a k) _ lens h)
        (λ mount h.
          part-Holds (GoodMount reals) (check_mount reals)
            (λ j a k. check_mount-GoodMount reals float_same stays_above stays_below j a k) _ mount
            h)
        e
  parsed-GoodEntry none entry e = cc
  parsed-GoodEntry (some null) entry e = cc
  parsed-GoodEntry (some (bool b)) entry e = cc
  parsed-GoodEntry (some (int z)) entry e = cc
  parsed-GoodEntry (some (float x)) entry e = cc
  parsed-GoodEntry (some (str s)) entry e = cc
  parsed-GoodEntry (some (arr items)) entry e = cc

  pub load-GoodEntry :
      (text : Option Str) (entry : Entry F)
      → load reals codec text ≡ some entry
      → GoodEntry reals entry
  unfolding load
  load-GoodEntry none entry e = cc
  load-GoodEntry (some text) entry e = go (leb (length text) 65536) e
    where
      go :
          (b : Bool)
          → (if b then parsed reals codec (codec.loads text) else none) ≡ some entry
          → GoodEntry reals entry
      go true e = parsed-GoodEntry (codec.loads text) entry e
      go false e = cc

  stored_part :
      {A : Type 0} (check : Json F → Result A) (j : Json F) (a : A)
      → check j ≡ ok a
      → part reals codec check (some j) ≡ some (some a)
  stored_part check j a e = ap (λ r. elim r [ ok a ↦ some (some a) | err m ↦ none ]) e

  parsed_stored :
      (entry : Entry F)
      → GoodEntry reals entry
      → parsed reals codec (some (entry_json entry)) ≡ some entry
  unfolding entry_json find str_eq
  parsed_stored entry good = go entry.lens entry.mount good
    where
      lens_part :
          (l : Lens F)
          → GoodLens reals l
          → part reals codec (check_lens reals) (some (lens_json l)) ≡ some (some l)
      lens_part l g =
          stored_part (check_lens reals) (lens_json l) l
            (check_lens-lens_json reals float_same stays_above stays_below l g)

      mount_part :
          (m : Mount F)
          → GoodMount reals m
          → part reals codec (check_mount reals) (some (mount_json m)) ≡ some (some m)
      mount_part m g =
          stored_part (check_mount reals) (mount_json m) m
            (check_mount-mount_json reals float_same stays_above stays_below m g)

      go :
          (lens : Option (Lens F)) (mount : Option (Mount F))
          → Holds (GoodLens reals) lens × Holds (GoodMount reals) mount
          → parsed reals codec (some (entry_json (record { lens = lens; mount = mount })))
            ≡ some (record { lens = lens; mount = mount })
      go none none g = refl
      go none (some m) g = ap (entry_of reals codec (some none)) (mount_part m (g.1))
      go (some l) none g = ap (λ o. entry_of reals codec o (some none)) (lens_part l (g.0))
      go (some l) (some m) g =
          ap
            (λ o.
              entry_of reals codec o (part reals codec (check_mount reals) (some (mount_json m))))
            (lens_part l (g.0))
          ∙ ap (entry_of reals codec (some (some l))) (mount_part m (g.1))

  pub load_stored :
      (entry : Entry F)
      → GoodEntry reals entry
      → load reals codec (some (codec.dumps (entry_json entry))) ≡ some entry
  unfolding load
  load_stored entry good =
      let (back, small) = reads_back entry good in
      if_true (leb (length (codec.dumps (entry_json entry))) 65536)
        (parsed reals codec (codec.loads (codec.dumps (entry_json entry)))) none small
      ∙ ap (parsed reals codec) back
      ∙ parsed_stored entry good
