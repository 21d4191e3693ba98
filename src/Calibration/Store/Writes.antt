-- ===== src/Calibration/Store/Writes.antt =====
-- src/fm_robot_agent/calibration.py: however a write ends, the camera's file is the old one or the
-- whole new one, and the old one is kept beside the new.
use fm_robot_agent.Prelude.{◌≡◌, refl, sym, subst, ◌⊎◌, inl, inr, Option, none, some, List, [], ◌∷◌}
use fm_robot_agent.Text.{Str}
use fm_robot_agent.Anvil.World.{Fate, done, fault, death}
use fm_robot_agent.Calibration.Store.{
  Disk, Ending, returned, adapter_error, os_error, died, M, pure, continue, ◌>>=◌, act, act_by,
  after_all, finally, as_adapter, set_temporary, keep_previous, put_live, write_and_swap,
  replace_durably, replace,
}

-- What holds where a call returned, and where it ended in another way.
pub data Ends {A : Type 0} (P : A → Disk → Type 0) (Q : Disk → Type 0)
    : Ending A × Disk → Type 0 where
  on_return : (a : A) (d : Disk) → P a d → Ends P Q (returned a, d)
  on_error : (m : Str) (d : Disk) → Q d → Ends P Q (adapter_error m, d)
  on_os : (d : Disk) → Q d → Ends P Q (os_error, d)
  on_death : (d : Disk) → Q d → Ends P Q (died, d)

chain_by :
    {A B : Type 0} {P : A → Disk → Type 0} {P' : B → Disk → Type 0} {Q : Disk → Type 0}
    (f : A → M B)
    → ((a : A) (d : Disk) → P a d → Ends P' Q (f a d))
    → (r : Ending A × Disk) → Ends P Q r
    → Ends P' Q (continue f r.0 r.1)
chain_by f h _ (on_return a d p) = h a d p
chain_by f h _ (on_error m d q) = on_error m d q
chain_by f h _ (on_os d q) = on_os d q
chain_by f h _ (on_death d q) = on_death d q

pub chain :
    {A B : Type 0} {P : A → Disk → Type 0} {P' : B → Disk → Type 0} {Q : Disk → Type 0} (m : M A)
    (f : A → M B) (d : Disk)
    → Ends P Q (m d)
    → ((a : A) (d' : Disk) → P a d' → Ends P' Q (f a d'))
    → Ends P' Q ((m >>= f) d)
chain m f d hm hf = chain_by f hf (m d) hm

pub weaken :
    {A : Type 0} {P P' : A → Disk → Type 0} {Q Q' : Disk → Type 0} (r : Ending A × Disk)
    → Ends P Q r
    → ((a : A) (d : Disk) → P a d → P' a d)
    → ((d : Disk) → Q d → Q' d)
    → Ends P' Q' r
weaken _ (on_return a d p) f g = on_return a d (f a d p)
weaken _ (on_error m d q) f g = on_error m d (g d q)
weaken _ (on_os d q) f g = on_os d (g d q)
weaken _ (on_death d q) f g = on_death d (g d q)

pub act-Ends :
    {P Q : Disk → Type 0} (f : Disk → Disk) (d : Disk)
    → ((fates : List Fate) → P (f (record d { fates = fates })))
    → ((fates : List Fate) → Q (record d { fates = fates }))
    → Ends (λ _. P) Q (act f d)
unfolding act
act-Ends {P} {Q} f d p q = go d.fates refl
  where
    go : (fates : List Fate) → d.fates ≡ fates → Ends (λ _. P) Q (act_by f fates d)
    go [] e = on_return tt (f d) (p (d.fates))
    go (done ∷ fates) e = on_return tt _ (p fates)
    go (fault ∷ fates) e = on_os _ (q fates)
    go (death ∷ fates) e = on_death _ (q fates)

-- A cleanup that keeps what holds at the ends.
finally_by :
    {A : Type 0} {P : A → Disk → Type 0} {Q : Disk → Type 0} (cleanup : M (Unit {0}))
    → ((a : A) (d : Disk) → P a d → Ends (λ _. P a) Q (cleanup d))
    → ((d : Disk) → Q d → Ends (λ _. Q) Q (cleanup d))
    → (r : Ending A × Disk) → Ends P Q r
    → Ends P Q (after_all cleanup r.0 r.1)
finally_by cleanup hp hq _ (on_return a d p) =
    chain cleanup (λ _. pure a) d (hp a d p) (λ _ d' p'. on_return a d' p')
finally_by cleanup hp hq _ (on_error m d q) =
    chain cleanup (λ _. λ d. (adapter_error m, d)) d (hq d q) (λ _ d' q'. on_error m d' q')
finally_by cleanup hp hq _ (on_os d q) =
    chain cleanup (λ _. λ d. (os_error, d)) d (hq d q) (λ _ d' q'. on_os d' q')
finally_by cleanup hp hq _ (on_death d q) = on_death d q

as_adapter-Ends :
    {A : Type 0} {P : A → Disk → Type 0} {Q : Disk → Type 0} (message : Str) (r : Ending A × Disk)
    → Ends P Q r
    → Ends P Q (as_adapter message r.0 r.1)
as_adapter-Ends message _ (on_return a d p) = on_return a d p
as_adapter-Ends message _ (on_error m d q) = on_error m d q
as_adapter-Ends message _ (on_os d q) = on_error message d q
as_adapter-Ends message _ (on_death d q) = on_death d q

-- The file that there was stands beside the new one.
abbrev pub Kept : Option Str → Option Str → Type 0
Kept none prev = Unit {0}
Kept (some text) prev = prev ≡ some text

abbrev pub OldOrNew : Option Str → Str → Disk → Type 0
OldOrNew old body d = (d.live ≡ old) ⊎ (d.live ≡ some body)

abbrev pub Swapped : Option Str → Str → Disk → Type 0
Swapped old body d = (d.live ≡ some body) × Kept old d.prev

abbrev Written : Option Str → Str → Disk → Type 0
Written old body d = (d.live ≡ old) × (d.temporary ≡ some body)

keep_previous-Kept :
    (old : Option Str) (body : Str) (d : Disk)
    → Written old body d
    → Ends
        (λ _ d'. Written old body d' × Kept old d'.prev)
        (OldOrNew old body)
        (keep_previous old d)
unfolding keep_previous
keep_previous-Kept none body d w = on_return tt d (w, tt)
keep_previous-Kept (some text) body d w =
    chain (act (λ d. record d { prev = none })) _ d
      (act-Ends {P = Written (some text) body} _ d (λ _. w) (λ _. inl (w.0)))
      (λ _ d' w'.
        act-Ends {P = λ d''. Written (some text) body d'' × Kept (some text) d''.prev}
          (λ d. record d { prev = d.live }) d' (λ _. (w', w'.0)) (λ _. inl (w'.0)))

write_and_swap-Swapped :
    (old : Option Str) (body : Str) (d : Disk)
    → d.live ≡ old
    → Ends (λ _. Swapped old body) (OldOrNew old body) (write_and_swap body d)
unfolding write_and_swap put_live
write_and_swap-Swapped old body d e =
    chain (act (set_temporary (some body))) _ d
      (act-Ends {P = Written old body} _ d (λ _. (e, refl)) (λ _. inl e))
      (λ _ d1 w.
        chain (λ d. keep_previous d.live d) _ d1
          (subst
            (λ o.
              Ends (λ _ d'. Written old body d' × Kept old d'.prev) (OldOrNew old body)
                (keep_previous o d1))
            (sym (w.0)) (keep_previous-Kept old body d1 w))
          (λ _ d2 wk.
            act-Ends {P = Swapped old body} (λ d. record d { live = d.temporary; temporary = none })
              d2 (λ _. (wk.0.1, wk.1)) (λ _. inl (wk.0.0))))

pub replace-Swapped :
    (camera body : Str) (d : Disk)
    → Ends (λ _. Swapped d.live body) (OldOrNew d.live body) (replace camera body d)
unfolding replace replace_durably
replace-Swapped camera body d = as_adapter-Ends _ (replace_durably body d) (
    chain (act (λ d. d)) _ d (act-Ends {P = λ d'. d'.live ≡ d.live} _ d (λ _. refl) (λ _. inl refl))
      (λ _ d1 e1.
        chain (act (set_temporary (some []))) _ d1
          (act-Ends {P = λ d'. d'.live ≡ d.live} _ d1 (λ _. e1) (λ _. inl e1))
          (λ _ d2 e2.
            chain (finally (write_and_swap body) (act (set_temporary none))) _ d2
              (finally_by {P = λ _. Swapped d.live body} (act (set_temporary none))
                (λ _ d' s.
                  act-Ends {P = Swapped d.live body} (set_temporary none) d' (λ _. s)
                    (λ _. inr (s.0)))
                (λ d' o.
                  act-Ends {P = OldOrNew d.live body} (set_temporary none) d' (λ _. o) (λ _. o))
                _ (write_and_swap-Swapped d.live body d2 e2))
              (λ _ d3 s.
                act-Ends {P = Swapped d.live body} (λ d. d) d3 (λ _. s) (λ _. inr (s.0))))))
