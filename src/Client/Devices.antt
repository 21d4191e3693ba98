-- ===== src/Client/Devices.antt =====
-- src/fm_robot_agent/client.py: a reply under a robot's own key names the device that was asked.
use fm_robot_agent.Prelude.{ℕ, ◌≡◌, refl, false, [], ◌∷◌, ◌==◌, arith}
use fm_robot_agent.Text.{Str, replace}
use fm_robot_agent.Text.Strip.{Without}
use fm_robot_agent.Verbs.Key.{Verb, verb_name, key_of}
use fm_robot_agent.Verbs.Key.Addressing.{split-key_of, prefix_parts}
use fm_robot_agent.Client.{namespace_of, device_in, device_of}

replace-replace : (a b : ℕ) (s : Str) → Without b s → replace b a (replace a b s) ≡ s
unfolding replace
replace-replace a b [] h = refl
replace-replace a b (c ∷ s) h = ground (arith, replace-replace a b s)

pub replace-Without :
    (a b n : ℕ) (s : Str) → (b == n) ≡ false → Without n s → Without n (replace a b s)
unfolding replace
replace-Without a b n [] e h = h
replace-Without a b n (c ∷ s) e h = (ground arith, replace-Without a b n s e h.1)

-- For a device whose name has no underscore and no slash, the key that the router replies under,
-- in the namespace that the client derives from the name, is the key of that device.
pub device_of-key_of :
    (device : Str) (v : Verb)
    → Without 95 device
    → Without 47 device
    → device_of (key_of (namespace_of device) (verb_name v)) ≡ device
unfolding device_of device_in namespace_of
device_of-key_of device v dash slash = rw (
  split-key_of (namespace_of device) v (replace-Without 45 95 47 device (ground arith) slash),
  prefix_parts,
  replace-replace 45 95 device dash,
)
