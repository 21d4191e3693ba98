-- ===== src/Pose/Move/Ends.antt =====
-- src/fm_robot_agent/pose_move.py: what holds at each of the ends of a call on the robot.
use fm_robot_agent.Prelude.{◌≡◌, refl, sym, subst}
use fm_robot_agent.Text.{Str}
use fm_robot_agent.Pose.Move.{
  Stop, exception, interrupt, Ending, returned, raised, Log, M, continue, rescue, rescue_all, ◌>>=◌,
  on_exception, on_any,
}

module _ {F : Type 0} where
  -- What holds where a call returned, raised an `Exception`, or was interrupted.
  pub data Ends {A : Type 0} (P : A → Log F → Type 0) (Q R : Log F → Type 0)
      : Ending A × Log F → Type 0 where
    on_return : (a : A) (l : Log F) → P a l → Ends P Q R (returned a, l)
    on_raise : (e : Str) (l : Log F) → Q l → Ends P Q R (raised (exception e), l)
    on_interrupt : (e : Str) (l : Log F) → R l → Ends P Q R (raised (interrupt e), l)

  chain_by :
      {A B : Type 0} {P : A → Log F → Type 0} {P' : B → Log F → Type 0} {Q R : Log F → Type 0}
      (f : A → M F B)
      → ((a : A) (l : Log F) → P a l → Ends P' Q R (f a l))
      → (r : Ending A × Log F) → Ends P Q R r
      → Ends P' Q R (continue f r.0 r.1)
  chain_by f h _ (on_return a l p) = h a l p
  chain_by f h _ (on_raise e l q) = on_raise e l q
  chain_by f h _ (on_interrupt e l q) = on_interrupt e l q

  pub chain :
      {A B : Type 0} {P : A → Log F → Type 0} {P' : B → Log F → Type 0} {Q R : Log F → Type 0}
      (m : M F A) (f : A → M F B) (l : Log F)
      → Ends P Q R (m l)
      → ((a : A) (l' : Log F) → P a l' → Ends P' Q R (f a l'))
      → Ends P' Q R ((m >>= f) l)
  chain m f l hm hf = chain_by f hf (m l) hm

  rescued_by :
      {A : Type 0} {P : A → Log F → Type 0} {Q Q' R : Log F → Type 0} (h : Str → M F A)
      → ((e : Str) (l : Log F) → Q l → Ends P Q' R (h e l))
      → (r : Ending A × Log F) → Ends P Q R r
      → Ends P Q' R (rescue h r.0 r.1)
  rescued_by h hh _ (on_return a l p) = on_return a l p
  rescued_by h hh _ (on_raise e l q) = hh e l q
  rescued_by h hh _ (on_interrupt e l q) = on_interrupt e l q

  pub rescued :
      {A : Type 0} {P : A → Log F → Type 0} {Q Q' R : Log F → Type 0} (m : M F A) (h : Str → M F A)
      (l : Log F)
      → Ends P Q R (m l)
      → ((e : Str) (l' : Log F) → Q l' → Ends P Q' R (h e l'))
      → Ends P Q' R (on_exception m h l)
  rescued m h l hm hh = rescued_by h hh (m l) hm

  caught_by :
      {A : Type 0} {P : A → Log F → Type 0} {Q R Q' R' : Log F → Type 0} (h : Stop → M F A)
      → ((e : Stop) (l : Log F) → Ends P Q' R' (h e l))
      → (r : Ending A × Log F) → Ends P Q R r
      → Ends P Q' R' (rescue_all h r.0 r.1)
  caught_by h hh _ (on_return a l p) = on_return a l p
  caught_by h hh _ (on_raise e l q) = hh (exception e) l
  caught_by h hh _ (on_interrupt e l q) = hh (interrupt e) l

  pub caught :
      {A : Type 0} {P : A → Log F → Type 0} {Q R Q' R' : Log F → Type 0} (m : M F A)
      (h : Stop → M F A) (l : Log F)
      → Ends P Q R (m l)
      → ((e : Stop) (l' : Log F) → Ends P Q' R' (h e l'))
      → Ends P Q' R' (on_any m h l)
  caught m h l hm hh = caught_by h hh (m l) hm

  pub weaken :
      {A : Type 0} {P P' : A → Log F → Type 0} {Q Q' R R' : Log F → Type 0} (r : Ending A × Log F)
      → Ends P Q R r
      → ((a : A) (l : Log F) → P a l → P' a l)
      → ((l : Log F) → Q l → Q' l)
      → ((l : Log F) → R l → R' l)
      → Ends P' Q' R' r
  weaken _ (on_return a l p) f g h = on_return a l (f a l p)
  weaken _ (on_raise e l q) f g h = on_raise e l (g l q)
  weaken _ (on_interrupt e l q) f g h = on_interrupt e l (h l q)

  -- One call that answers `r` and leaves `l`, where what is claimed holds of `l`.
  pub answered :
      {A : Type 0} {P : A → Log F → Type 0} {Q R : Log F → Type 0} (r : Ending A) (l : Log F)
      → ((a : A) → r ≡ returned a → P a l)
      → Q l
      → R l
      → Ends P Q R (r, l)
  answered (returned a) l p q h = on_return a l (p a refl)
  answered (raised (exception e)) l p q h = on_raise e l q
  answered (raised (interrupt e)) l p q h = on_interrupt e l h

  pub answered_as :
      {A : Type 0} {P : A → Log F → Type 0} {Q R : Log F → Type 0} (r : Ending A) (a : A)
      (l : Log F)
      → r ≡ returned a
      → P a l
      → Ends P Q R (r, l)
  answered_as {P} {Q} {R} r a l e p = subst (λ s. Ends P Q R (s, l)) (sym e) (on_return a l p)

  pub raised_as :
      {A : Type 0} {P : A → Log F → Type 0} {Q R : Log F → Type 0} (r : Ending A) (e : Str)
      (l : Log F)
      → r ≡ raised (exception e)
      → Q l
      → Ends P Q R (r, l)
  raised_as {P} {Q} {R} r e l h q = subst (λ s. Ends P Q R (s, l)) (sym h) (on_raise e l q)

  pub anything :
      {A : Type 0} (c : Ending A × Log F) → Ends (λ _ _. Unit {0}) (λ _. Unit {0}) (λ _. Unit {0}) c
  anything (returned a, l) = on_return a l tt
  anything (raised (exception e), l) = on_raise e l tt
  anything (raised (interrupt e), l) = on_interrupt e l tt

  -- What holds at every end holds.
  pub at_every_end :
      {A : Type 0} {Q : Log F → Type 0} (r : Ending A × Log F) → Ends (λ _. Q) Q Q r → Q r.1
  at_every_end _ (on_return a l q) = q
  at_every_end _ (on_raise e l q) = q
  at_every_end _ (on_interrupt e l q) = q
