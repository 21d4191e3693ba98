-- ===== src/Anvil/Calls.antt =====
-- src/fm_robot_agent/anvil.py: what calls on the host leave as it was, and how that composes.
use fm_robot_agent.Prelude.{◌≡◌, refl, ◌∙◌}
use fm_robot_agent.Text.{Str}
use fm_robot_agent.Anvil.World.{
  World, os_error, adapter_error, Ending, returned, raised, died, M, continue, after_os,
  after_adapter, ◌>>=◌, on_os, on_adapter,
}

-- The call never changes what `view` shows of the host, however it ends.
abbrev pub Keeps : {A B : Type 0} → (World → B) → M A → Type 0
Keeps view m = (w : World) → view (m w).1 ≡ view w

continue-Keeps :
    {A B C : Type 0} (view : World → C) (f : A → M B)
    → ((a : A) → Keeps view (f a))
    → (r : Ending A) (w : World) → view (continue f r w).1 ≡ view w
continue-Keeps view f hf (returned a) w = hf a w
continue-Keeps view f hf (raised e) w = refl
continue-Keeps view f hf died w = refl

pub chain-Keeps :
    {A B C : Type 0} (view : World → C) (m : M A) (f : A → M B)
    → Keeps view m
    → ((a : A) → Keeps view (f a))
    → Keeps view (m >>= f)
chain-Keeps view m f hm hf w = continue-Keeps view f hf (m w).0 (m w).1 ∙ hm w

after_os-Keeps :
    {A C : Type 0} (view : World → C) (h : M A)
    → Keeps view h
    → (r : Ending A) (w : World) → view (after_os h r w).1 ≡ view w
after_os-Keeps view h hh (returned a) w = refl
after_os-Keeps view h hh (raised os_error) w = hh w
after_os-Keeps view h hh (raised (adapter_error m)) w = refl
after_os-Keeps view h hh died w = refl

pub on_os-Keeps :
    {A C : Type 0} (view : World → C) (m h : M A)
    → Keeps view m
    → Keeps view h
    → Keeps view (on_os m h)
on_os-Keeps view m h hm hh w = after_os-Keeps view h hh (m w).0 (m w).1 ∙ hm w

after_adapter-Keeps :
    {A C : Type 0} (view : World → C) (h : Str → M A)
    → ((m : Str) → Keeps view (h m))
    → (r : Ending A) (w : World) → view (after_adapter h r w).1 ≡ view w
after_adapter-Keeps view h hh (returned a) w = refl
after_adapter-Keeps view h hh (raised os_error) w = refl
after_adapter-Keeps view h hh (raised (adapter_error m)) w = hh m w
after_adapter-Keeps view h hh died w = refl

pub on_adapter-Keeps :
    {A C : Type 0} (view : World → C) (m : M A) (h : Str → M A)
    → Keeps view m
    → ((e : Str) → Keeps view (h e))
    → Keeps view (on_adapter m h)
on_adapter-Keeps view m h hm hh w = after_adapter-Keeps view h hh (m w).0 (m w).1 ∙ hm w

-- What holds where a call returned, where it raised either error, and where the process died.
pub data Ensures {A : Type 0} (P : A → World → Type 0) (O Q D : World → Type 0)
    : Ending A × World → Type 0 where
  on_return : (a : A) (w : World) → P a w → Ensures P O Q D (returned a, w)
  on_fault : (w : World) → O w → Ensures P O Q D (raised os_error, w)
  on_refusal : (m : Str) (w : World) → Q w → Ensures P O Q D (raised (adapter_error m), w)
  on_death : (w : World) → D w → Ensures P O Q D (died, w)

chain-Ensures_by :
    {A B : Type 0} {P : A → World → Type 0} {R : B → World → Type 0} {O Q D : World → Type 0}
    (f : A → M B)
    → ((a : A) (w : World) → P a w → Ensures R O Q D (f a w))
    → (r : Ending A × World) → Ensures P O Q D r
    → Ensures R O Q D (continue f r.0 r.1)
chain-Ensures_by f hf _ (on_return a w p) = hf a w p
chain-Ensures_by f hf _ (on_fault w o) = on_fault w o
chain-Ensures_by f hf _ (on_refusal m w q) = on_refusal m w q
chain-Ensures_by f hf _ (on_death w d) = on_death w d

pub chain-Ensures :
    {A B : Type 0} {P : A → World → Type 0} {R : B → World → Type 0} {O Q D : World → Type 0}
    (m : M A) (f : A → M B) (w : World)
    → Ensures P O Q D (m w)
    → ((a : A) (w' : World) → P a w' → Ensures R O Q D (f a w'))
    → Ensures R O Q D ((m >>= f) w)
chain-Ensures m f w hm hf = chain-Ensures_by f hf (m w) hm

os-Ensures_by :
    {A : Type 0} {P : A → World → Type 0} {O O' Q D : World → Type 0} (h : M A)
    → ((w : World) → O w → Ensures P O' Q D (h w))
    → (r : Ending A × World) → Ensures P O Q D r
    → Ensures P O' Q D (after_os h r.0 r.1)
os-Ensures_by h hh _ (on_return a w p) = on_return a w p
os-Ensures_by h hh _ (on_fault w o) = hh w o
os-Ensures_by h hh _ (on_refusal m w q) = on_refusal m w q
os-Ensures_by h hh _ (on_death w d) = on_death w d

pub os-Ensures :
    {A : Type 0} {P : A → World → Type 0} {O O' Q D : World → Type 0} (m h : M A) (w : World)
    → Ensures P O Q D (m w)
    → ((w' : World) → O w' → Ensures P O' Q D (h w'))
    → Ensures P O' Q D (on_os m h w)
os-Ensures m h w hm hh = os-Ensures_by h hh (m w) hm

adapter-Ensures_by :
    {A : Type 0} {P : A → World → Type 0} {O Q Q' D : World → Type 0} (h : Str → M A)
    → ((e : Str) (w : World) → Q w → Ensures P O Q' D (h e w))
    → (r : Ending A × World) → Ensures P O Q D r
    → Ensures P O Q' D (after_adapter h r.0 r.1)
adapter-Ensures_by h hh _ (on_return a w p) = on_return a w p
adapter-Ensures_by h hh _ (on_fault w o) = on_fault w o
adapter-Ensures_by h hh _ (on_refusal m w q) = hh m w q
adapter-Ensures_by h hh _ (on_death w d) = on_death w d

pub adapter-Ensures :
    {A : Type 0} {P : A → World → Type 0} {O Q Q' D : World → Type 0} (m : M A) (h : Str → M A)
    (w : World)
    → Ensures P O Q D (m w)
    → ((e : Str) (w' : World) → Q w' → Ensures P O Q' D (h e w'))
    → Ensures P O Q' D (on_adapter m h w)
adapter-Ensures m h w hm hh = adapter-Ensures_by h hh (m w) hm

-- The same facts with other, weaker ones in their place.
pub weaken :
    {A : Type 0} {P P' : A → World → Type 0} {O O' Q Q' D D' : World → Type 0}
    (r : Ending A × World)
    → Ensures P O Q D r
    → ((a : A) (w : World) → P a w → P' a w)
    → ((w : World) → O w → O' w)
    → ((w : World) → Q w → Q' w)
    → ((w : World) → D w → D' w)
    → Ensures P' O' Q' D' r
weaken _ (on_return a w p) f g h k = on_return a w (f a w p)
weaken _ (on_fault w o) f g h k = on_fault w (g w o)
weaken _ (on_refusal m w q) f g h k = on_refusal m w (h w q)
weaken _ (on_death w d) f g h k = on_death w (k w d)

-- What a call keeps, it keeps at each of its ends.
pub keeps_Ensures :
    {A B : Type 0} (view : World → B) (b : B) (r : Ending A × World)
    → view r.1 ≡ b
    → Ensures (λ a w. view w ≡ b) (λ w. view w ≡ b) (λ w. view w ≡ b) (λ w. view w ≡ b) r
keeps_Ensures view b (returned a, w) e = on_return a w e
keeps_Ensures view b (raised os_error, w) e = on_fault w e
keeps_Ensures view b (raised (adapter_error m), w) e = on_refusal m w e
keeps_Ensures view b (died, w) e = on_death w e
