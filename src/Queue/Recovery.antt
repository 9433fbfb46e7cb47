-- ===== src/Queue/Recovery.antt =====
-- The connection comes back: from wherever a run has led, some steps lead to a healthy service.
use talent_flow_ai_backend.Prelude.{
  ℕ, String, Option, none, some, List, [], ◌∷◌, ◌++◌, Bool, true, false, ◌≡◌, refl, arith, is_some,
  any, inl, inr, Option-cases, Bool-cases, ap, ◌∙◌, subst,
}
use talent_flow_ai_backend.Async.{ok}
use talent_flow_ai_backend.Queue.Connection.{
  QueueConfig, QueueService, Task, connecting, opening, closing_channel, closing_connection,
  resolved, check_url, connect_with_setup, connect_if, settle, schedule_reconnect, call_channel,
  listen, safe_close_current_connection, reconnect, base_delay, is_healthy,
}
use talent_flow_ai_backend.Queue.Steps.{Step, settles, fires, Reach, IsJitter}
use talent_flow_ai_backend.Queue.Invariant.{
  Inv, HasTimer, is_reconnecting, is_opening, Step-Inv, Reach-Inv,
}

module _ (lower : String → String) (config : QueueConfig) where
  -- Any number of steps.
  pub data Runs : QueueService → QueueService → Type 0 where
    here : {s : QueueService} → Runs s s
    next : {s u t : QueueService} → Step lower config s u → Runs u t → Runs s t

  abbrev pub Recovers : QueueService → Type 0
  Recovers s = (t : QueueService) × Runs s t × (is_healthy t ≡ true)

  by-Step : (s u : QueueService) → Step lower config s u → Recovers u → Recovers s
  by-Step s u st (t, r, h) = (t, Runs.next st r, h)

-- An outstanding await that passes a test.
split_any :
    (p : Task → Bool) (xs : List Task)
    → any p xs ≡ true
    → (before after : List Task) × (t : Task) × (xs ≡ before ++ t ∷ after) × (p t ≡ true)
split_any p [] h = absurd (ground arith)
split_any p (x ∷ xs) h = elim (Bool-cases (p x)) [
  | inl y ↦ ([], xs, x, refl, y)
  | inr n ↦
      let (before, after, t, e, y) = split_any p xs (ground arith) in
      (x ∷ before, after, t, ap (λ l. x ∷ l) e, y)
]

opening_only : (t : Task) → is_opening t ≡ true → t ≡ opening
opening_only opening h = refl
opening_only connecting h = absurd (ground arith)
opening_only (Task.setting_up l) h = absurd (ground arith)
opening_only (closing_channel c) h = absurd (ground arith)
opening_only closing_connection h = absurd (ground arith)
opening_only Task.destroying_channel h = absurd (ground arith)
opening_only Task.destroying_connection h = absurd (ground arith)

no-IsJitter : (base : ℕ) → IsJitter base 0
no-IsJitter base = omega arith

module _ (lower : String → String) (config : QueueConfig) where
  settles_well :
      (s : QueueService) (before after : List Task) (t : Task)
      → s.tasks ≡ before ++ t ∷ after
      → Recovers lower config
          (settle config 0 0 t (resolved 0) (record s { tasks = before ++ after }))
      → Recovers lower config s
  settles_well s before after t e r =
      by-Step lower config s _
        (settles before after t (resolved 0) 0 0 e
          (no-IsJitter (base_delay config s.reconnect_attempt)) refl)
        r

  opening-Recovers :
      (s : QueueService) (before after : List Task)
      → s.tasks ≡ before ++ opening ∷ after
      → is_some s.connection ≡ true
      → Recovers lower config s
  unfolding settle listen call_channel
  opening-Recovers s before after e c =
      settles_well s before after opening e (_, Runs.here, ground arith)

  connecting-Recovers :
      (s : QueueService) (before after : List Task)
      → s.tasks ≡ before ++ connecting ∷ after
      → Recovers lower config s
  unfolding settle
  connecting-Recovers s before after e =
      settles_well s before after connecting e (opening-Recovers _ [] (before ++ after) refl refl)

module _ (lower : String → String) (config : QueueConfig)
    (valid : check_url lower config ≡ ok tt) where
  timer-Recovers :
      (s : QueueService) (h : ℕ)
      → s.reconnect_timer ≡ some h
      → Inv config s
      → Recovers lower config s
  unfolding reconnect connect_with_setup connect_if
  timer-Recovers s h e v =
      let (d, one, l) = subst (λ o. HasTimer config o s.timeouts) e v.one_timer in
      let tried =
        connecting-Recovers lower config
          (record s { timeouts = []; reconnect_timer = none; tasks = connecting ∷ s.tasks }) []
          s.tasks refl in
      by-Step lower config s _ (fires [] [] h d one refl) (rw valid tried)

  scheduled :
      (s : QueueService) (rest : List Task)
      → s.is_shutting_down ≡ false
      → (h : ℕ) × ((settle config 0 0 closing_connection
            (resolved 0)
            (record s { tasks = rest })).reconnect_timer
          ≡ some h)
  unfolding settle schedule_reconnect
  scheduled s rest up = elim (Option-cases s.reconnect_timer) [
    | inl e ↦ (0, ground arith)
    | inr (h, e) ↦ (h, ground arith)
  ]

  closing_connection-Recovers :
      (s : QueueService) (before after : List Task)
      → s.tasks ≡ before ++ closing_connection ∷ after
      → s.is_shutting_down ≡ false
      → Inv config s
      → Recovers lower config s
  closing_connection-Recovers s before after e up v =
      let st =
        settles before after closing_connection (resolved 0) 0 0 e
          (no-IsJitter (base_delay config s.reconnect_attempt)) refl in
      let u =
        settle config 0 0 closing_connection (resolved 0) (record s { tasks = before ++ after }) in
      let (h, due) = scheduled s (before ++ after) up in
      by-Step lower config s u st (timer-Recovers u h due (Step-Inv config lower s u st v))

  closing_channel-Recovers :
      (s : QueueService) (before after : List Task) (c : Option ℕ)
      → s.tasks ≡ before ++ closing_channel c ∷ after
      → s.is_shutting_down ≡ false
      → Inv config s
      → Recovers lower config s
  unfolding settle
  closing_channel-Recovers s before after c e up v =
      let st =
        settles before after (closing_channel c) (resolved 0) 0 0 e
          (no-IsJitter (base_delay config s.reconnect_attempt)) refl in
      by-Step lower config s _ st (
        closing_connection-Recovers _ [] (before ++ after) refl up (Step-Inv config lower s _ st v))

  lost_opening-Recovers :
      (s : QueueService) (before after : List Task)
      → s.tasks ≡ before ++ opening ∷ after
      → s.connection ≡ none
      → s.is_shutting_down ≡ false
      → Inv config s
      → Recovers lower config s
  unfolding settle listen safe_close_current_connection
  lost_opening-Recovers s before after e lost up v =
      let st =
        settles before after opening (resolved 0) 0 0 e
          (no-IsJitter (base_delay config s.reconnect_attempt)) refl in
      by-Step lower config s _ st (
        closing_channel-Recovers _ [] (before ++ after) none (ground arith) (ground arith)
          (Step-Inv config lower s _ st v))

  task-Recovers :
      (s : QueueService) (before after : List Task) (t : Task)
      → s.tasks ≡ before ++ t ∷ after
      → is_reconnecting t ≡ true
      → s.connection ≡ none
      → s.is_shutting_down ≡ false
      → Inv config s
      → Recovers lower config s
  task-Recovers s before after connecting e r lost up v =
      connecting-Recovers lower config s before after e
  task-Recovers s before after opening e r lost up v =
      lost_opening-Recovers s before after e lost up v
  task-Recovers s before after (Task.setting_up l) e r lost up v = absurd (ground arith)
  task-Recovers s before after (closing_channel c) e r lost up v =
      closing_channel-Recovers s before after c e up v
  task-Recovers s before after closing_connection e r lost up v =
      closing_connection-Recovers s before after e up v
  task-Recovers s before after Task.destroying_channel e r lost up v = absurd (ground arith)
  task-Recovers s before after Task.destroying_connection e r lost up v = absurd (ground arith)

  Inv-Recovers :
      (s : QueueService) → s.is_shutting_down ≡ false → Inv config s → Recovers lower config s
  Inv-Recovers s up v = elim (Option-cases s.connection) [
    | inr (c, e) ↦ elim (Option-cases s.channel) [
      | inr (k, f) ↦ (s, Runs.here, ground arith)
      | inl f ↦
          let (before, after, t, split, is) =
            split_any is_opening s.tasks (ground (arith, v.opened)) in
          opening-Recovers lower config s before after
            (split ∙ ap (λ x. before ++ x ∷ after) (opening_only t is)) (ground arith)
    ]
    | inl e ↦ elim (Option-cases s.reconnect_timer) [
      | inr (h, f) ↦ timer-Recovers s h f v
      | inl f ↦
          let (before, after, t, split, is) =
            split_any is_reconnecting s.tasks (ground (arith, v.alive)) in
          task-Recovers s before after t split is e up v
    ]
  ]

-- After every run that has not begun to shut down, with a valid address, some further steps lead to
-- a healthy service: with a connection and a channel.
pub Reach-Recovers :
    (lower : String → String) (config : QueueConfig) (s : QueueService)
    → check_url lower config ≡ ok tt
    → Reach lower config s
    → s.is_shutting_down ≡ false
    → Recovers lower config s
Reach-Recovers lower config s valid r up =
    Inv-Recovers lower config valid s up (Reach-Inv lower config r)
