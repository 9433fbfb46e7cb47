-- ===== src/Queue/Invariant.antt =====
-- What holds of the connection after every run.
use talent_flow_ai_backend.Prelude.{
  ℕ, ◌≤◌, String, Option, none, some, List, [], ◌∷◌, ◌++◌, Bool, true, false, not, ◌||◌, ◌≡◌, refl,
  arith, is_some, any, inl, inr, Option-cases, Bool-cases, ap, sym, subst,
}
use talent_flow_ai_backend.Async.{Result, ok, err}
use talent_flow_ai_backend.Queue.Connection.{
  QueueConfig, QueueService, Task, Outcome, TopologyCall, constructed, later_calls, connecting,
  opening, setting_up, closing_channel, closing_connection, destroying_channel,
  destroying_connection, resolved, rejected, reconnect_delay, connect_with_setup, connect_if,
  check_url, settle, schedule_reconnect, call_channel, listen, safe_close_current_connection,
  handle_connection_lost, reconnect, clear_reconnect_timer, without_handle, on_module_destroy,
}
use talent_flow_ai_backend.Queue.Steps.{
  Step, settles, loses_connection, fires, destroys, Reach, starts, steps,
}

-- The awaits that end in a connection or in a timer, whatever their outcome.
abbrev pub is_reconnecting : Task → Bool
is_reconnecting connecting = true
is_reconnecting opening = true
is_reconnecting (closing_channel c) = true
is_reconnecting closing_connection = true
is_reconnecting _ = false

abbrev pub is_destroying : Task → Bool
is_destroying destroying_channel = true
is_destroying destroying_connection = true
is_destroying _ = false

abbrev pub is_opening : Task → Bool
is_opening opening = true
is_opening _ = false

-- The runtime has the timer of the service and no other, with a delay within the limit.
abbrev pub HasTimer : QueueConfig → Option ℕ → List (ℕ × ℕ) → Type 0
HasTimer config none timeouts = timeouts ≡ []
HasTimer config (some h) timeouts = (d : ℕ) × (timeouts ≡ (h, d) ∷ []) × (d ≤ config.max_delay_ms)

pub record Inv (config : QueueConfig) (s : QueueService) : Type 0 where
  -- at most one reconnection is due
  pub one_timer : HasTimer config s.reconnect_timer s.timeouts
  -- none is due once the service shuts down
  pub quiet : (not s.is_shutting_down || not (is_some s.reconnect_timer)) ≡ true
  -- the awaits of `onModuleDestroy` come with the shutdown
  pub destroying : (s.is_shutting_down || not (any is_destroying s.tasks)) ≡ true
  -- without a connection one is due or under way, unless the service shuts down
  pub alive :
      (s.is_shutting_down
        || is_some s.connection
        || is_some s.reconnect_timer
        || any is_reconnecting s.tasks)
      ≡ true
  -- a connection has a channel, or one is being opened
  pub opened :
      (s.is_shutting_down
        || not (is_some s.connection)
        || is_some s.channel
        || any is_opening s.tasks)
      ≡ true

any-append : (p : Task → Bool) (xs ys : List Task) → any p (xs ++ ys) ≡ (any p xs || any p ys)
any-append p [] ys = refl
any-append p (x ∷ xs) ys = ground (arith, any-append p xs ys)

-- The invariant with one more await that is about to end.
record Owes (config : QueueConfig) (t : Task) (s : QueueService) : Type 0 where
  one_timer : HasTimer config s.reconnect_timer s.timeouts
  quiet : (not s.is_shutting_down || not (is_some s.reconnect_timer)) ≡ true
  destroying : (s.is_shutting_down || not (is_destroying t || any is_destroying s.tasks)) ≡ true
  alive :
      (s.is_shutting_down
        || is_some s.connection
        || is_some s.reconnect_timer
        || is_reconnecting t
        || any is_reconnecting s.tasks)
      ≡ true
  opened :
      (s.is_shutting_down
        || not (is_some s.connection)
        || is_some s.channel
        || is_opening t
        || any is_opening s.tasks)
      ≡ true

Inv-Owes :
    (config : QueueConfig) (s : QueueService) (before after : List Task) (t : Task)
    → s.tasks ≡ before ++ t ∷ after
    → Inv config s
    → Owes config t (record s { tasks = before ++ after })
Inv-Owes config s before after t e v = record {
  one_timer = v.one_timer;
  quiet = v.quiet;
  destroying = ground (
    arith,
    v.destroying,
    any-append is_destroying before (t ∷ after),
    any-append is_destroying before after,
  );
  alive = ground (
    arith,
    v.alive,
    any-append is_reconnecting before (t ∷ after),
    any-append is_reconnecting before after,
  );
  opened = ground (
    arith,
    v.opened,
    any-append is_opening before (t ∷ after),
    any-append is_opening before after,
  );
}

module _ (config : QueueConfig) where
  safe_close-Inv :
      (t : Task) (s : QueueService) → Owes config t s → Inv config (safe_close_current_connection s)
  unfolding safe_close_current_connection
  safe_close-Inv t s v = record {
    one_timer = v.one_timer;
    quiet = v.quiet;
    destroying = ground (arith, v.destroying);
    alive = ground arith;
    opened = ground arith;
  }

  call_channel-Inv :
      (t : Task) (later : List TopologyCall) (s : QueueService)
      → (is_some s.connection || not (is_reconnecting t)) ≡ true
      → Owes config t s
      → Inv config (call_channel (setting_up later) s)
  unfolding call_channel safe_close_current_connection
  call_channel-Inv t later s h v = elim (Option-cases s.channel) [
    | inl e ↦ rw e (safe_close-Inv t s v)
    | inr (c, e) ↦ rw e (record {
      one_timer = v.one_timer;
      quiet = v.quiet;
      destroying = ground (arith, v.destroying);
      alive = ground arith;
      opened = ground arith;
    })
  ]

  -- An await that sets up the topology or destroys, and that leaves everything as it is.
  drop-Inv :
      (t : Task) (s : QueueService)
      → is_reconnecting t ≡ false
      → is_opening t ≡ false
      → Owes config t s
      → Inv config s
  drop-Inv t s a b v = record {
    one_timer = v.one_timer;
    quiet = v.quiet;
    destroying = ground (arith, v.destroying);
    alive = ground (arith, v.alive);
    opened = ground (arith, v.opened);
  }

  listen-Inv :
      (c : ℕ) (s : QueueService)
      → Owes config opening s
      → Inv config (listen (record s { channel = some c }))
  unfolding listen
  listen-Inv c s v =
      let with_channel : Owes config opening (record s { channel = some c }) = record {
        one_timer = v.one_timer;
        quiet = v.quiet;
        destroying = ground (arith, v.destroying);
        alive = ground (arith, v.alive);
        opened = ground arith;
      } in
      elim (Bool-cases (is_some s.connection)) [
        | inl y ↦ rw y (call_channel-Inv opening later_calls _ (ground arith) with_channel)
        | inr n ↦ rw n (safe_close-Inv opening _ with_channel)
      ]

  reconnect_delay-le :
      (attempt jitter : ℕ) → reconnect_delay config attempt jitter ≤ config.max_delay_ms
  unfolding reconnect_delay
  reconnect_delay-le attempt jitter = omega arith

  schedule_reconnect-Inv :
      (jitter handle : ℕ) (s : QueueService)
      → Owes config closing_connection s
      → Inv config (schedule_reconnect config jitter handle s)
  unfolding schedule_reconnect
  schedule_reconnect-Inv jitter handle s v = elim (Bool-cases s.is_shutting_down) [
    | inl y ↦ simp y (record {
      one_timer = v.one_timer;
      quiet = v.quiet;
      destroying = ground (arith, v.destroying);
      alive = ground arith;
      opened = ground arith;
    })
    | inr n ↦ elim (Option-cases s.reconnect_timer) [
      | inr (h, e) ↦
          simp (n, e)
            (record {
              one_timer = v.one_timer;
              quiet = v.quiet;
              destroying = ground (arith, v.destroying);
              alive = ground arith;
              opened = ground (arith, v.opened);
            })
      | inl e ↦
          let empty : s.timeouts ≡ [] = subst (λ o. HasTimer config o s.timeouts) e v.one_timer in
          simp (n, e)
            (record {
              one_timer = (
                reconnect_delay config s.reconnect_attempt jitter,
                ap (λ ts. (handle, reconnect_delay config s.reconnect_attempt jitter) ∷ ts) empty,
                reconnect_delay-le s.reconnect_attempt jitter,
              );
              quiet = ground arith;
              destroying = ground (arith, v.destroying);
              alive = ground arith;
              opened = ground (arith, v.opened);
            })
    ]
  ]

  settle-Inv :
      (jitter handle : ℕ) (t : Task) (o : Outcome) (s : QueueService)
      → Owes config t s
      → Inv config (settle config jitter handle t o s)
  unfolding settle
  settle-Inv jitter handle connecting (resolved c) s v = record {
    one_timer = v.one_timer;
    quiet = v.quiet;
    destroying = ground (arith, v.destroying);
    alive = ground arith;
    opened = ground arith;
  }
  settle-Inv jitter handle connecting rejected s v = safe_close-Inv connecting s v
  settle-Inv jitter handle opening (resolved c) s v = listen-Inv c s v
  settle-Inv jitter handle opening rejected s v = safe_close-Inv opening s v
  settle-Inv jitter handle (setting_up []) (resolved c) s v =
      drop-Inv (setting_up []) (record s { reconnect_attempt = 0 }) refl refl
        (record {
          one_timer = v.one_timer;
          quiet = v.quiet;
          destroying = ground (arith, v.destroying);
          alive = v.alive;
          opened = v.opened;
        })
  settle-Inv jitter handle (setting_up (call ∷ later)) (resolved c) s v =
      call_channel-Inv (setting_up (call ∷ later)) later s (ground arith) v
  settle-Inv jitter handle (setting_up later) rejected s v = safe_close-Inv (setting_up later) s v
  settle-Inv jitter handle (closing_channel c) o s v = record {
    one_timer = v.one_timer;
    quiet = v.quiet;
    destroying = ground (arith, v.destroying);
    alive = ground arith;
    opened = ground (arith, v.opened);
  }
  settle-Inv jitter handle closing_connection o s v = schedule_reconnect-Inv jitter handle s v
  settle-Inv jitter handle destroying_channel (resolved c) s v = record {
    one_timer = v.one_timer;
    quiet = v.quiet;
    destroying = ground (arith, v.destroying);
    alive = ground (arith, v.alive);
    opened = ground (arith, v.opened);
  }
  settle-Inv jitter handle destroying_channel rejected s v =
      drop-Inv destroying_channel s refl refl v
  settle-Inv jitter handle destroying_connection (resolved c) s v = record {
    one_timer = v.one_timer;
    quiet = v.quiet;
    destroying = ground (arith, v.destroying);
    alive = ground (arith, v.destroying);
    opened = ground (arith, v.destroying);
  }
  settle-Inv jitter handle destroying_connection rejected s v =
      drop-Inv destroying_connection s refl refl v

  -- Whatever is outstanding, an attempt to connect leaves one under way, or a connection that closes.
  connect_if-Inv :
      (r : Result Unit) (s : QueueService)
      → HasTimer config s.reconnect_timer s.timeouts
      → (not s.is_shutting_down || not (is_some s.reconnect_timer)) ≡ true
      → (s.is_shutting_down || not (any is_destroying s.tasks)) ≡ true
      → (s.is_shutting_down
          || not (is_some s.connection)
          || is_some s.channel
          || any is_opening s.tasks)
        ≡ true
      → Inv config (connect_if r s)
  unfolding connect_if safe_close_current_connection
  connect_if-Inv (ok x) s t q d o = record {
    one_timer = t;
    quiet = q;
    destroying = ground arith;
    alive = ground arith;
    opened = ground arith;
  }
  connect_if-Inv (err x) s t q d o = record {
    one_timer = t;
    quiet = q;
    destroying = ground arith;
    alive = ground arith;
    opened = ground arith;
  }

  connection_lost-Inv : (s : QueueService) → Inv config s → Inv config (handle_connection_lost s)
  unfolding handle_connection_lost
  connection_lost-Inv s v = elim (Bool-cases s.is_shutting_down) [
    | inl y ↦ simp y v
    | inr n ↦ simp n (record {
      one_timer = v.one_timer;
      quiet = ground arith;
      destroying = ground (arith, v.destroying);
      alive = ground arith;
      opened = ground arith;
    })
  ]

  fired :
      (before after : List (ℕ × ℕ)) (x : ℕ × ℕ) (o : Option ℕ)
      → HasTimer config o (before ++ x ∷ after)
      → before ++ after ≡ []
  fired [] after x none h = absurd (ground arith)
  fired [] after x (some h') (d, e, l) = ground arith
  fired (y ∷ before) after x none h = absurd (ground arith)
  fired (y ∷ []) after x (some h') (d, e, l) = absurd (ground arith)
  fired (y ∷ z ∷ before) after x (some h') (d, e, l) = absurd (ground arith)

  reconnect-Inv :
      (lower : String → String) (before after : List (ℕ × ℕ)) (x : ℕ × ℕ) (s : QueueService)
      → s.timeouts ≡ before ++ x ∷ after
      → Inv config s
      → Inv config (reconnect lower config (record s { timeouts = before ++ after }))
  unfolding reconnect connect_with_setup
  reconnect-Inv lower before after x s e v =
      connect_if-Inv (check_url lower config)
        (record s { timeouts = before ++ after; reconnect_timer = none })
        (fired before after x s.reconnect_timer
          (subst (HasTimer config s.reconnect_timer) e v.one_timer))
        (ground arith) v.destroying v.opened

  clear_reconnect_timer-clears :
      (o : Option ℕ) (s : QueueService)
      → s.reconnect_timer ≡ o
      → HasTimer config o s.timeouts
      → ((clear_reconnect_timer o s).reconnect_timer ≡ none)
        × ((clear_reconnect_timer o s).timeouts ≡ [])
        × ((clear_reconnect_timer o s).is_shutting_down ≡ s.is_shutting_down)
  unfolding clear_reconnect_timer without_handle
  clear_reconnect_timer-clears none s e empty = (e, empty, refl)
  clear_reconnect_timer-clears (some h) s e (d, one, l) = (refl, ground arith, refl)

  on_module_destroy-Inv : (s : QueueService) → Inv config s → Inv config (on_module_destroy s)
  unfolding on_module_destroy
  on_module_destroy-Inv s v =
      let (gone, empty, down) =
        clear_reconnect_timer-clears s.reconnect_timer (record s { is_shutting_down = true }) refl
          v.one_timer in
      record {
        one_timer =
            subst
              (λ o.
                HasTimer config o
                  (clear_reconnect_timer s.reconnect_timer
                    (record s { is_shutting_down = true })).timeouts)
              (sym gone) empty;
        quiet = ground arith;
        destroying = ground arith;
        alive = ground arith;
        opened = ground arith;
      }

  constructed-Inv :
      (lower : String → String) → Inv config (connect_with_setup lower config constructed)
  unfolding connect_with_setup
  constructed-Inv lower = connect_if-Inv (check_url lower config) constructed refl refl refl refl

  pub Step-Inv :
      (lower : String → String) (s u : QueueService)
      → Step lower config s u
      → Inv config s
      → Inv config u
  Step-Inv lower s u (settles before after t o jitter handle e small is) v =
      rw is (settle-Inv jitter handle t o _ (Inv-Owes config s before after t e v))
  Step-Inv lower s u (loses_connection is) v = rw is (connection_lost-Inv s v)
  Step-Inv lower s u (fires before after handle delay e is) v =
      rw is (reconnect-Inv lower before after (handle, delay) s e v)
  Step-Inv lower s u (destroys is) v = rw is (on_module_destroy-Inv s v)

-- After every run of the connection the runtime has at most one timer, that of the service, with a
-- delay of at most the limit, and none once the service shuts down; and until it shuts down the
-- service is never stuck: it holds a connection, or a reconnection is due or under way, and a
-- connection that it holds has a channel or is opening one.
pub Reach-Inv :
    (lower : String → String) (config : QueueConfig) {s : QueueService}
    → Reach lower config s
    → Inv config s
Reach-Inv lower config starts = constructed-Inv config lower
Reach-Inv lower config (steps r st) = Step-Inv config lower _ _ st (Reach-Inv lower config r)
