-- ===== src/Verbs/Router/Guards.antt =====
-- src/fm_robot_agent/verbs.py: what reaches the adapter. A handler refuses and touches nothing, or
-- it makes one call whose arguments passed the checks.
use fm_robot_agent.Prelude.{
  ◌≡◌, refl, ◌⊎◌, inl, inr, ◌≤◌, Bool, true, false, not, none, some, [], ◌∷◌, arith, codes, length,
  leb, leb→le, ◌&&◌, ◌||◌, if◌then◌else◌,
}
use fm_robot_agent.Text.{Str, str_eq, str_eq_iff}
use fm_robot_agent.Dict.{Dict}
use fm_robot_agent.Json.{Json, null, str, Fields}
use fm_robot_agent.Protocol.{Action, Outcome, Adapter, Python, pure, ◌>>=◌}
use fm_robot_agent.Verbs.Reply.{Reply, refuse, outcome}
use fm_robot_agent.Verbs.Values.{valid_dataset, episode_pattern, truthy}
use fm_robot_agent.Verbs.Checks.{Checked, accepted, rejected, in_words}
use fm_robot_agent.Verbs.Checks.Options.{IsSafeStart, collect_options-IsSafeStart}
use fm_robot_agent.Verbs.Handlers
use fm_robot_agent.Verbs.Handlers.{refused, answer_with, collect_actions, record_actions, is_text}
use fm_robot_agent.Verbs.Equipment
use fm_robot_agent.Verbs.Equipment.{json_text, text_such, max_note_len}

-- `m` is a refusal, or the reply to one call that has `P`.
pub record Guarded {F S : Type 0} (key : Str) (P : Action S (Outcome F) → Type 0)
    (m : Action S (Reply F)) : Type 0 where
  pub cases :
      ((message : Str) × (m ≡ pure (refuse key message)))
      ⊎ ((call : Action S (Outcome F)) × P call × (m ≡ (call >>= λ o. pure (outcome key o))))

module _ {F S : Type 0} (key : Str) (P : Action S (Outcome F) → Type 0) where
  pub Guarded-if :
      (b : Bool) (m n : Action S (Reply F))
      → (b ≡ true → Guarded key P m)
      → (b ≡ false → Guarded key P n)
      → Guarded key P (if b then m else n)
  Guarded-if true m n h k = h refl
  Guarded-if false m n h k = k refl

  pub Guarded-absurd : (b : Bool) (m : Action S (Reply F)) → b ≡ true → b ≡ false → Guarded key P m
  Guarded-absurd b m h k = cc (h, k)

  pub Guarded-refuse : (message : Str) → Guarded {S = S} key P (pure (refuse {F = F} key message))
  Guarded-refuse message = record { cases = inl (message, refl) }

  pub Guarded-call :
      (call : Action S (Outcome F)) → P call → Guarded key P (call >>= λ o. pure (outcome key o))
  Guarded-call call p = record { cases = inr (call, p, refl) }

pub not-false : (b : Bool) → not b ≡ false → b ≡ true
not-false b h = ground arith

neither : (a b c : Bool) → a ≡ true → (a && (b || c)) ≡ false → (b ≡ false) × (c ≡ false)
neither a b c h k = ground arith

stop_or_status :
    (a : Str)
    → in_words {F = ⊥} (str a) collect_actions ≡ true
    → str_eq a (codes "start") ≡ false
    → (a ≡ codes "stop") ⊎ (a ≡ codes "status")
stop_or_status a h n = ground (arith, str_eq_iff a (codes "stop"), str_eq_iff a (codes "status"))

module _ (py : Python) {S : Type 0} (adapter : Adapter py.F S) (key : Str) where
  open py use {F}

  -- A start carries options that passed every check; a stop or a status carries none.
  abbrev pub IsCollectCall : Action S (Outcome F) → Type 0
  IsCollectCall call =
      ((options : Dict Str) × IsSafeStart py options
        × (call ≡ adapter.collect (codes "start") (some options)))
      ⊎ (call ≡ adapter.collect (codes "stop") none)
      ⊎ (call ≡ adapter.collect (codes "status") none)

  collect_start-Guarded :
      (c : Checked (Dict Str))
      → ((o : Dict Str) → c ≡ accepted o → IsSafeStart py o)
      → Guarded key IsCollectCall (Handlers.collect_start py adapter key c)
  unfolding Handlers.collect_start
  collect_start-Guarded (rejected message) h = search Guarded-refuse
  collect_start-Guarded (accepted options) h =
      Guarded-call key IsCollectCall _ (inl (options, h options refl, refl))

  collect_other-Guarded :
      (action : Json F)
      → in_words action collect_actions ≡ true
      → is_text action (codes "start") ≡ false
      → Guarded key IsCollectCall (Handlers.collect_other py adapter key action)
  unfolding Handlers.collect_other
  collect_other-Guarded (str a) h n =
      Guarded-call key IsCollectCall _
        (inr (elim (stop_or_status a h n) [ inl e ↦ inl (rw e) | inr e ↦ inr (rw e) ]))
  collect_other-Guarded null h n = cc
  collect_other-Guarded _ h n = cc

  -- `collect` refuses and changes nothing, or it makes one call: a start whose object has the form
  -- of an object's name, whose hours, cycles and speed, where given, are the texts of numbers in
  -- their ranges and whose `no_record`, where given, is `true`, or a stop or a status without
  -- options.
  pub collect-Guarded :
      (body : Fields F) → Guarded key IsCollectCall (Handlers.collect py adapter key body)
  unfolding Handlers.collect
  collect-Guarded body =
      search
        (
          Guarded-if, Guarded-refuse, collect_start-Guarded, collect_other-Guarded, not-false,
          collect_options-IsSafeStart,
        )
        depth 9

  -- A take is started or stopped in a valid dataset, with a bounded note and a numeric episode, and
  -- a start has neither.
  pub record IsRecordCall (call : Action S (Outcome F)) : Type 0 where
    pub dataset : Str
    pub action : Str
    pub task : Str
    pub note : Str
    pub episode : Str
    pub called : call ≡ adapter.record_take dataset action task note episode
    pub named : valid_dataset dataset ≡ true
    pub known : (action ≡ codes "start") ⊎ (action ≡ codes "stop")
    pub short : length note ≤ 500
    pub numeric : (episode ≡ []) ⊎ (episode_pattern episode ≡ true)
    pub alone : action ≡ codes "start" → (note ≡ []) × (episode ≡ [])

  start_or_stop :
      (a : Json F)
      → in_words a record_actions ≡ true
      → (json_text a ≡ codes "start") ⊎ (json_text a ≡ codes "stop")
  start_or_stop (str a) h =
      ground (arith, str_eq_iff a (codes "start"), str_eq_iff a (codes "stop"))
  start_or_stop null h = cc
  start_or_stop _ h = cc

  short_note :
      (v : Json F)
      → text_such (λ s. leb (length s) max_note_len) v ≡ true
      → length (json_text v) ≤ 500
  short_note (str s) h = leb→le (length s) 500 h
  short_note null h = cc
  short_note _ h = cc

  numeric_episode :
      (v : Json F)
      → text_such (λ s. leb (length s) 0 || episode_pattern s) v ≡ true
      → (json_text v ≡ []) ⊎ (episode_pattern (json_text v) ≡ true)
  numeric_episode (str []) h = inl refl
  numeric_episode (str (c ∷ s)) h = inr (ground arith)
  numeric_episode null h = cc
  numeric_episode _ h = cc

  json_text_dataset :
      (v : Json F) → text_such valid_dataset v ≡ true → valid_dataset (json_text v) ≡ true
  json_text_dataset (str s) h = h
  json_text_dataset null h = cc
  json_text_dataset _ h = cc

  is_start : (v : Json F) → json_text v ≡ codes "start" → is_text v (codes "start") ≡ true
  is_start (str s) h = (str_eq_iff s (codes "start")).1 h
  is_start null h = cc
  is_start _ h = cc

  -- What is false is no text, or the empty one.
  pub falsy_text : (v : Json F) → truthy py v ≡ false → json_text v ≡ []
  falsy_text (str []) h = refl
  falsy_text (str (c ∷ s)) h = cc
  falsy_text _ h = refl

  -- `record` refuses and changes nothing, or it starts or stops a take in a valid dataset, with a
  -- note of at most 500 characters and an episode that is empty or matches the pattern of an
  -- episode; a start has neither note nor episode.
  pub record_take-Guarded :
      (body : Fields F) → Guarded key IsRecordCall (Equipment.record_take py adapter key body)
  unfolding Equipment.record_take
  record_take-Guarded body = search (Guarded-if, Guarded-refuse, recorded) depth 12
    where
      recorded :
          (d a t n e : Json F)
          → not (text_such valid_dataset d) ≡ false
          → not (in_words a record_actions) ≡ false
          → is_text a (codes "start") && (truthy py n || truthy py e) ≡ false
          → not (text_such (λ s. leb (length s) max_note_len) n) ≡ false
          → not (text_such (λ s. leb (length s) 0 || episode_pattern s) e) ≡ false
          → Guarded key IsRecordCall (
              answer_with py adapter key (
                adapter.record_take
                  (json_text d)
                  (json_text a)
                  (json_text t)
                  (json_text n)
                  (json_text e)))
      recorded d a t n e h₁ h₂ h₃ h₄ h₅ = Guarded-call key IsRecordCall _ (record {
        dataset = json_text d;
        action = json_text a;
        task = json_text t;
        note = json_text n;
        episode = json_text e;
        called = refl;
        named = json_text_dataset d (not-false _ h₁);
        known = start_or_stop a (not-false _ h₂);
        short = short_note n (not-false _ h₄);
        numeric = numeric_episode e (not-false _ h₅);
        alone = λ start.
            let (fn, fe) =
              neither (is_text a (codes "start")) (truthy py n) (truthy py e) (is_start a start)
                h₃ in
            (falsy_text n fn, falsy_text e fe);
      })
