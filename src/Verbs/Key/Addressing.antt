-- ===== src/Verbs/Key/Addressing.antt =====
-- src/fm_robot_agent/verbs.py: `verb_of` reads exactly the keys of this robot, and the wildcard's
-- keys of the read verbs.
use fm_robot_agent.Prelude.{
  ◌≡◌, refl, subst, append_assoc, ◌⊎◌, inl, inr, true, false, Option, none, some, List, [], ◌∷◌,
  ◌++◌, arith, Bool-cases, codes, if◌then◌else◌,
}
use fm_robot_agent.Text.{Str, str_eq, str_eq_iff, str_eq_refl, split, join}
use fm_robot_agent.Text.Strip.{Without}
use fm_robot_agent.Text.Split.{split-append, split-Without, join-split}
use fm_robot_agent.Verbs.Key.{
  Verb, verb_name, verbs, verb_named, is_read, key_prefix, discovery_segment, addressed,
  verb_of_parts, verb_of, key_of,
}

-- A namespace is one segment of a key.
abbrev pub IsSegment : Str → Type 0
IsSegment = Without 47

verb_name-IsSegment : (v : Verb) → IsSegment (verb_name v)
verb_name-IsSegment Verb.status = ground arith
verb_name-IsSegment _ = ground arith

pub split-key_of :
    (namespace : Str) (v : Verb)
    → IsSegment namespace
    → split 47 (key_of namespace (verb_name v))
      ≡ codes "fm" ∷ codes "robot" ∷ namespace ∷ verb_name v ∷ []
split-key_of namespace v h = rw (
  split-append 47 (codes "fm") (codes "robot" ++ 47 ∷ (namespace ++ 47 ∷ verb_name v))
      (ground arith),
  split-append 47 (codes "robot") (namespace ++ 47 ∷ verb_name v) (ground arith),
  split-append 47 namespace (verb_name v) h,
  split-Without 47 (verb_name v) (verb_name-IsSegment v),
)

verb_named-verb_name : (v : Verb) → verb_named (verb_name v) verbs ≡ some v
unfolding verb_named str_eq
verb_named-verb_name Verb.status = refl
verb_named-verb_name _ = refl

-- A name that is found is the name of the verb.
verb_named_sound :
    (name : Str) (v : Verb) (vs : List Verb) → verb_named name vs ≡ some v → name ≡ verb_name v
unfolding verb_named
verb_named_sound name v [] h = cc
verb_named_sound name v (w ∷ vs) h =
    ground (arith, str_eq_iff name (verb_name w), verb_named_sound name v vs)

pub prefix_parts : str_eq (join (47 ∷ []) (codes "fm" ∷ codes "robot" ∷ [])) key_prefix ≡ true
unfolding join str_eq
prefix_parts = refl

-- Where the namespace has no slash, the robot's key of a verb names that verb.
pub verb_of-key_of :
    (namespace : Str) (v : Verb)
    → IsSegment namespace
    → verb_of (key_of namespace (verb_name v)) namespace ≡ some v
unfolding verb_of
verb_of-key_of namespace v h =
    rw (split-key_of namespace v h, verb_named-verb_name v, prefix_parts, str_eq_refl namespace)

-- On the wildcard's keys, for a robot that is not itself named `*`, a read names itself and any
-- other verb nothing.
pub verb_of-discovery :
    (namespace : Str) (v : Verb)
    → str_eq discovery_segment namespace ≡ false
    → verb_of (key_of discovery_segment (verb_name v)) namespace
      ≡ (if is_read v then some v else none)
unfolding verb_of
verb_of-discovery namespace v other = rw (
  split-key_of discovery_segment v (ground arith),
  verb_named-verb_name v,
  prefix_parts,
  other,
  str_eq_refl discovery_segment,
)

-- A verb is read only off this robot's own key for it, or off the wildcard's, if it is a read.
abbrev pub Names : Str → Verb → Str → Type 0
Names key v namespace =
    (key ≡ key_of namespace (verb_name v))
    ⊎ ((key ≡ key_of discovery_segment (verb_name v)) × (is_read v ≡ true))

addressed_sound :
    (queried namespace : Str) (o : Option Verb) (v : Verb)
    → addressed queried namespace o ≡ some v
    → (o ≡ some v) × ((queried ≡ namespace) ⊎ ((queried ≡ discovery_segment) × (is_read v ≡ true)))
unfolding addressed
addressed_sound queried namespace none v h = cc
addressed_sound queried namespace (some w) v h =
    ground (arith, str_eq_iff queried namespace, str_eq_iff queried discovery_segment)

join-parts :
    (a b q n : Str)
    → join (47 ∷ []) (a ∷ b ∷ q ∷ n ∷ []) ≡ join (47 ∷ []) (a ∷ b ∷ []) ++ 47 ∷ (q ++ 47 ∷ n)
unfolding join
join-parts a b q n = simp append_assoc

parts_sound :
    (parts : List Str) (namespace : Str) (v : Verb)
    → verb_of_parts parts namespace ≡ some v
    → Names (join (47 ∷ []) parts) v namespace
unfolding verb_of_parts
parts_sound (a ∷ b ∷ queried ∷ name ∷ []) namespace v h =
    elim (Bool-cases (str_eq (join (47 ∷ []) (a ∷ b ∷ [])) key_prefix)) [
      | inl e ↦
          let (found, place) =
            addressed_sound queried namespace (verb_named name verbs) v (rw e at h) in
          rw
            (
              join-parts a b queried name,
              (str_eq_iff (join (47 ∷ []) (a ∷ b ∷ [])) key_prefix).0 e,
              verb_named_sound name v verbs found,
            )
            (placed place)
      | inr e ↦ cc (clash e)
    ]
  where
    placed :
        (queried ≡ namespace) ⊎ ((queried ≡ discovery_segment) × (is_read v ≡ true))
        → Names (key_of queried (verb_name v)) v namespace
    placed (inl own) = inl (rw own)
    placed (inr (wild, read)) = inr (rw wild, read)

    clash : str_eq (join (47 ∷ []) (a ∷ b ∷ [])) key_prefix ≡ false → none ≡ some v
    clash e = rw e at h
parts_sound _ namespace v h = cc

-- A key that names a verb for a robot is the robot's key of that verb, or the wildcard's key of a
-- read.
pub verb_of_sound :
    (key namespace : Str) (v : Verb) → verb_of key namespace ≡ some v → Names key v namespace
unfolding verb_of
verb_of_sound key namespace v h =
    subst (λ t. Names t v namespace) (join-split 47 key) (parts_sound (split 47 key) namespace v h)
