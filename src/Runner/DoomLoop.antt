-- ===== src/Runner/DoomLoop.antt =====
-- `_is_doom_loop` and `_step_limits` (agent/core/runner.py). The equality of the arguments of two
-- calls, Python's on parsed JSON, is a parameter.
use text.Mathlib.Text.{◌==◌}
use luca_py.Base.{
  ℕ, zero, suc, ◌+◌, ◌-◌, String, ◌≡◌, ◌↔◌, refl, sym, ap, ◌∙◌, inl, inr, Bool, true, false, not,
  ◌&&◌, none, some, List, [], ◌∷◌, ◌++◌, if◌then◌else◌, arith, length, has_length, has_length_iff,
  all-All, take, drop, all, All, filter, length-append, take-append-drop, drop-append_length,
  Bool-cases,
}
use luca_py.Models.Json.{Fields}
use luca_py.Models.Content.{ToolCall}
use luca_py.Models.Entries.{ToolExecution}
use luca_py.Models.Path
use luca_py.Models.Session.{AgentSession, Conversation, Limit}
use luca_py.Ledger.{Result, ok, err, conversation}
use luca_py.Ledger.Reads.{open_turn_executions}

-- te.tool_spec is None or not te.tool_spec.is_synthetic
unfoldable pub is_counted : ToolExecution → Bool
is_counted e = elim e.tool_spec [ none ↦ true | some spec ↦ not spec.is_synthetic ]

-- xs[-n:], where -0 is 0
unfoldable pub tail_of {ℓ} : {A : Type ℓ} → ℕ → List A → List A
tail_of zero xs = xs
tail_of (suc n) xs = drop (length xs - suc n) xs

module _ (same_arguments : Fields → Fields → Bool) where
  unfoldable pub is_repeat : ToolCall → ToolExecution → Bool
  is_repeat tc e =
      (e.raw_tool_call.name == tc.name) && same_arguments e.raw_tool_call.arguments tc.arguments

  unfoldable pub is_repeated : ℕ → ToolCall → List ToolExecution → Bool
  is_repeated lookback tc executions =
      let subset = tail_of lookback executions in
      if has_length subset lookback then all (is_repeat tc) subset else false

  unfoldable pub is_doom_loop : AgentSession → String → ToolCall → Result Bool
  is_doom_loop session conversation_id tc =
      elim session.session_config.runtime_config.doom_loop_threshold [
        | Limit.inf ↦ ok false
        | Limit.at zero ↦ ok false
        | Limit.at (suc lookback) ↦ elim (open_turn_executions session conversation_id) [
          | err e ↦ err e
          | ok executions ↦ ok (is_repeated lookback tc (filter is_counted executions))
        ]
      ]

tail_of-append {ℓ} :
    {A : Type ℓ} (before window : List A) (n : ℕ)
    → length window ≡ suc n
    → tail_of (suc n) (before ++ window) ≡ window
unfolding tail_of
tail_of-append before window n h =
    let e : length (before ++ window) - suc n ≡ length before + 0 =
      omega (arith, length-append before window) in
    rw e (drop-append_length before window 0)

false-true : false ≡ true → ⊥
false-true h = ground arith

module _ (same_arguments : Fields → Fields → Bool) (tc : ToolCall) where
  ends_in :
      (xs : List ToolExecution) (n : ℕ)
      → has_length xs n ≡ true
      → all (is_repeat same_arguments tc) xs ≡ true
      → (if has_length xs n then all (is_repeat same_arguments tc) xs else false) ≡ true
  ends_in xs n long repeats = rw long repeats

  repeated_none :
      (xs : List ToolExecution) → (is_repeated same_arguments 0 tc xs ≡ true) ↔ (xs ≡ [])
  unfolding is_repeated tail_of
  repeated_none [] = (λ h. refl, λ h. refl)
  repeated_none (x ∷ xs) = (λ h. absurd (ground arith), λ h. absurd (ground arith))

  -- The last executions of a list that repeat the call.
  abbrev pub EndsInRepeats : ℕ → List ToolExecution → Type 0
  EndsInRepeats n executions =
      (before window : List ToolExecution) × (executions ≡ before ++ window)
      × (length window ≡ n)
      × All (λ e. is_repeat same_arguments tc e ≡ true) window

  is_repeated_iff :
      (n : ℕ) (executions : List ToolExecution)
      → (is_repeated same_arguments (suc n) tc executions ≡ true) ↔ EndsInRepeats (suc n) executions
  unfolding is_repeated tail_of
  is_repeated_iff n executions =
      let cut = length executions - suc n in
      let window = drop cut executions in
      (
        λ h. elim (Bool-cases (has_length window (suc n))) [
          | inl long ↦ (
            take cut executions,
            window,
            sym (take-append-drop cut executions),
            (has_length_iff window (suc n)).0 long,
            (all-All (is_repeat same_arguments tc) window).0 (rw (long, is_repeated) at h),
          )
          | inr short ↦ absurd (false-true (rw (short, is_repeated) at h))
        ],
        λ (before, last, split, long, repeats).
            let e : tail_of (suc n) executions ≡ last =
              ap (tail_of (suc n)) split ∙ tail_of-append before last n long in
            ends_in (tail_of (suc n) executions) (suc n)
              (rw e ((has_length_iff last (suc n)).1 long))
              (rw e ((all-All (is_repeat same_arguments tc) last).1 repeats)),
      )

-- The executions that the test looks at.
abbrev pub counted : AgentSession → Conversation → List ToolExecution
counted session c = filter is_counted (Path.open_turn_executions c.nodes session.entries)

module _ (same_arguments : Fields → Fields → Bool) (session : AgentSession) (id : String)
    (tc : ToolCall) (c : Conversation) (found : conversation session id ≡ ok c) where
  is_doom_loop_at :
      (lookback : ℕ)
      → session.session_config.runtime_config.doom_loop_threshold ≡ Limit.at (suc lookback)
      → is_doom_loop same_arguments session id tc
        ≡ ok (is_repeated same_arguments lookback tc (counted session c))
  unfolding is_doom_loop open_turn_executions
  is_doom_loop_at lookback h = rw (h, is_doom_loop) (rw (found, is_doom_loop) refl)

  -- In a conversation of the session and with a threshold of `n + 2`: the test returns, and it says
  -- yes exactly when the last `n + 1` executions of the open turn, synthetic ones left out, are
  -- there and are calls of the same name and arguments.
  pub is_doom_loop_iff :
      (n : ℕ)
      → session.session_config.runtime_config.doom_loop_threshold ≡ Limit.at (suc (suc n))
      → (flagged : Bool) × (is_doom_loop same_arguments session id tc ≡ ok flagged)
        × ((flagged ≡ true) ↔ EndsInRepeats same_arguments tc (suc n) (counted session c))
  is_doom_loop_iff n h = (
    is_repeated same_arguments (suc n) tc (counted session c),
    is_doom_loop_at (suc n) h,
    is_repeated_iff same_arguments tc n (counted session c),
  )

  -- In a conversation of the session and with a threshold of 1: the test returns, and it says yes
  -- only while the open turn has no execution that counts, so not for the calls after the first.
  pub is_doom_loop_one :
      session.session_config.runtime_config.doom_loop_threshold ≡ Limit.at 1
      → (flagged : Bool) × (is_doom_loop same_arguments session id tc ≡ ok flagged)
        × ((flagged ≡ true) ↔ (counted session c ≡ []))
  unfolding is_repeated tail_of
  is_doom_loop_one h = (
    is_repeated same_arguments 0 tc (counted session c),
    is_doom_loop_at 0 h,
    repeated_none same_arguments tc (counted session c),
  )
