-- ===== src/Verbs/Checks/Accepted.antt =====
-- src/fm_robot_agent/verbs.py: what is known of a check that let a value through.
use fm_robot_agent.Prelude.{◌≡◌, refl, Bool, true, arith, if◌then◌else◌}
use fm_robot_agent.Text.{Str}
use fm_robot_agent.Verbs.Checks.{Checked, accepted, rejected, ◌>>=◌}

pub accepted-injective : {A : Type 0} (a b : A) → accepted a ≡ accepted b → a ≡ b
accepted-injective a b h = cc

-- What a passed test lets through.
pub test_accepted :
    {A : Type 0} (b : Bool) (old new : A) (message : Str)
    → (if b then accepted old else rejected message) ≡ accepted new
    → (b ≡ true) × (new ≡ old)
test_accepted b old new message h = ground arith

pub >>=-accepted :
    {A B : Type 0} (m : Checked A) (f : A → Checked B) {b : B}
    → (m >>= f) ≡ accepted b
    → (a : A) × (m ≡ accepted a) × (f a ≡ accepted b)
>>=-accepted (accepted a) f h = (a, refl, h)
>>=-accepted (rejected m) f h = cc
