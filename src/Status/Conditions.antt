-- ===== src/Status/Conditions.antt =====
-- The `Ready` condition and the conditions of others.
use cert_publisher.Prelude.{
  ℕ, suc, String, ◌≡◌, refl, inl, inr, ◌⊎◌, Bool, Option, none, some, List, [], ◌∷◌, ◌++◌, ◌==◌,
  arith, if◌then◌else◌, Option-cases, eq_iff,
}
use cert_publisher.Prelude.Text.{truncate}
use cert_publisher.Resources.{Condition, Publication}
use cert_publisher.Effects.{ok, World, State, ◌>>=◌, pure, now_utc}
use cert_publisher.Utils.{now_rfc3339}
use cert_publisher.Status.{
  ready_type, find_ready, others, merge_conditions, decide_ready, state_text, kept_transition,
  ready_condition, max_message, any_ready,
}

pub count_ready : List Condition → ℕ
count_ready [] = 0
count_ready (c ∷ cs) = if c.type == ready_type then suc (count_ready cs) else count_ready cs

count_ready-others :
    (cs : List Condition) (c : Condition)
    → c.type ≡ ready_type
    → count_ready (others cs ++ c ∷ []) ≡ 1
unfolding count_ready others
count_ready-others [] c e = ground (arith, eq_iff c.type ready_type)
count_ready-others (d ∷ cs) c e = ground (arith, count_ready-others cs c e)

find_ready-others :
    (cs : List Condition) (c : Condition)
    → c.type ≡ ready_type
    → find_ready (others cs ++ c ∷ []) ≡ some c
unfolding find_ready others
find_ready-others [] c e = ground (arith, eq_iff c.type ready_type)
find_ready-others (d ∷ cs) c e = ground (arith, find_ready-others cs c e)

others-others :
    (cs : List Condition) (c : Condition)
    → c.type ≡ ready_type
    → others (others cs ++ c ∷ []) ≡ others cs
unfolding others
others-others [] c e = ground (arith, eq_iff c.type ready_type)
others-others (d ∷ cs) c e = ground (arith, others-others cs c e)

-- The list that is written has the new `Ready` condition as its only one of that type, however many
-- were stored, and keeps every other condition in its order.
pub merge_conditions_lem :
    (p : Publication) (c : Condition)
    → c.type ≡ ready_type
    → (find_ready (merge_conditions p c) ≡ some c)
      × (count_ready (merge_conditions p c) ≡ 1)
      × (others (merge_conditions p c) ≡ others p.status.conditions)
unfolding merge_conditions
merge_conditions_lem p c e = (
  find_ready-others p.status.conditions c e,
  count_ready-others p.status.conditions c e,
  others-others p.status.conditions c e,
)

any_ready-others :
    (cs : List Condition) (c : Condition)
    → c.type ≡ ready_type
    → any_ready (others cs ++ c ∷ []) ≡ (c.status == "True")
unfolding any_ready others
any_ready-others [] c e = ground (arith, eq_iff c.type ready_type)
any_ready-others (d ∷ cs) c e = ground (arith, any_ready-others cs c e)

pub any_ready-merge_conditions :
    (p : Publication) (c : Condition)
    → c.type ≡ ready_type
    → any_ready (merge_conditions p c) ≡ (c.status == "True")
unfolding merge_conditions
any_ready-merge_conditions p c = any_ready-others p.status.conditions c

module _ ⦃w : World⦄ where
  -- The transition time of a condition: that of the stored condition if the stored state is the
  -- same, and else a new stamp.
  abbrev pub HasTransition : Option Condition → Condition → Type 0
  HasTransition old c =
      (kept_transition old c.status ≡ some c.last_transition_time)
      ⊎ ((n : ℕ) × (kept_transition old c.status ≡ none)
          × (c.last_transition_time ≡ w.strftime (w.clock n)))

  pub record IsReadyCondition (p : Publication) (phase reason message : String)
      (ready : Option Bool) (c : Condition) : Type 0 where
    pub type_eq : c.type ≡ ready_type
    pub status_eq : c.status ≡ state_text (decide_ready ready phase)
    pub reason_eq : c.reason ≡ reason
    pub message_eq : c.message ≡ truncate max_message message
    pub generation_eq : c.observed_generation ≡ p.generation
    pub transition : HasTransition (find_ready p.status.conditions) c

  -- The condition that is built follows the phase, unless the caller overrides it, keeps the stored
  -- transition time while the state is unchanged and has a stamp of the clock otherwise; building it
  -- changes nothing but the clock's readings.
  pub ready_condition_lem :
      (p : Publication) (phase reason message : String) (ready : Option Bool) (s : State)
      → (c : Condition) × (n : ℕ) × (ready_condition p phase reason message ready s
          ≡ (ok c, record s { readings = n }))
        × IsReadyCondition p phase reason message ready c
  unfolding ready_condition now_rfc3339 now_utc ◌>>=◌ pure
  ready_condition_lem p phase reason message ready s =
      elim (Option-cases (
        kept_transition (find_ready p.status.conditions) (state_text (decide_ready ready phase)))) [
          | inl e ↦ (
            record {
              type = ready_type;
              status = state_text (decide_ready ready phase);
              reason = reason;
              message = truncate max_message message;
              last_transition_time = w.strftime (w.clock s.readings);
              observed_generation = p.generation;
            },
            suc s.readings,
            simp e,
            record {
              type_eq = refl;
              status_eq = refl;
              reason_eq = refl;
              message_eq = refl;
              generation_eq = refl;
              transition = inr (s.readings, e, refl);
            },
          )
          | inr (t, e) ↦ (
            record {
              type = ready_type;
              status = state_text (decide_ready ready phase);
              reason = reason;
              message = truncate max_message message;
              last_transition_time = t;
              observed_generation = p.generation;
            },
            s.readings,
            simp e,
            record {
              type_eq = refl;
              status_eq = refl;
              reason_eq = refl;
              message_eq = refl;
              generation_eq = refl;
              transition = inl e;
            },
          )
        ]
