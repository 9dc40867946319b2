-- ===== src/App/Requests.antt =====
-- main/app_main.c and components/app_console/app_console.c: a word at the console becomes a command in
-- the session's queue.
use esp32_sparkplug.Prelude.{
  ℕ, ◌≡◌, ap, same_text, Bool, true, false, Option, none, some, List, [], ◌∷◌, CString, codes,
  if◌then◌else◌, arith,
}
use esp32_sparkplug.Esp.{EspErr, is_ok}
use esp32_sparkplug.Session.State.{Cmd, force_publish, force_rebirth, set_disconnect_sim}
use esp32_sparkplug.Session.Events.{plain_cmd}
use esp32_sparkplug.Session.Status.{queue_command}
use esp32_sparkplug.Session.Api.{
  queue_or_timeout, request_publish, request_rebirth, set_disconnect_sim_enabled,
}
use esp32_sparkplug.Console.Providers.{snapshot_providers, usage}
use esp32_sparkplug.Console.State.{Providers}
use esp32_sparkplug.Console.Commands.{
  cmd_publish, cmd_rebirth, cmd_disconnect_sim, no_arguments, set_sim, report_action_result,
}
use esp32_sparkplug.App.Callback.{on_session}
use esp32_sparkplug.App.Status.{
  provider_code, app_providers, run_action, app_request_publish, app_request_rebirth,
  app_set_disconnect_sim_enabled,
}
use esp32_sparkplug.Platform.{Trace, Call}
use esp32_sparkplug.Board.{Devices, Board, BoardAct}

some_injective : {a b : ℕ} → some a ≡ some b → a ≡ b
some_injective e = cc

module _ (dev : Devices) where
  -- Whether the queue takes a command.
  abbrev pub takes : Cmd → Board → Bool
  takes cmd b = dev.env.queue_send b.node.trace cmd (dev.env.pd_ms_to_ticks 100)

  -- A board on which the application runs.
  pub record Ready (b : Board) : Type 0 where
    pub queue : ℕ
    pub queued : b.node.session.queue ≡ some queue
    pub initialized : b.node.session.initialized ≡ true
    pub wired : b.console.providers ≡ app_providers

  -- The commands that were offered to the queue, the newest first.
  unfoldable pub offered : Trace → List Cmd
  offered [] = []
  offered (Call.queue_send cmd ∷ t) = cmd ∷ offered t
  offered (_ ∷ t) = offered t

  -- The exit code is 1, and nothing but the history is changed, in which no command is offered.
  abbrev pub Refuses : BoardAct ℕ → Board → Type 0
  Refuses act b =
      ((act b).0 ≡ 1)
      × ((act b).1.node.session ≡ b.node.session)
      × (offered (act b).1.node.trace ≡ offered b.node.trace)

  -- The session's answer to a request, and what it offers.
  abbrev Answers : Cmd → BoardAct EspErr → Board → Type 0
  Answers cmd act b =
      (is_ok (act b).0 ≡ takes cmd b)
      × (offered (act b).1.node.trace ≡ cmd ∷ offered b.node.trace)
      × ((act b).1.console ≡ b.console)

  publish-Answers :
      (b : Board) → Ready b → Answers (plain_cmd force_publish) (app_request_publish dev) b
  unfolding app_request_publish request_publish on_session queue_or_timeout queue_command offered
  publish-Answers b r = ground arith

  rebirth-Answers :
      (b : Board) → Ready b → Answers (plain_cmd force_rebirth) (app_request_rebirth dev) b
  unfolding app_request_rebirth request_rebirth on_session queue_or_timeout queue_command offered
  rebirth-Answers b r = ground arith

  -- Exit code 0 if the queue takes the command, 1 if not, and one command is offered.
  abbrev pub Queues : Cmd → BoardAct ℕ → Board → Type 0
  Queues cmd act b =
      ((act b).0 ≡ (if takes cmd b then 0 else 1))
      × (offered (act b).1.node.trace ≡ cmd ∷ offered b.node.trace)

  report_action_result-Queues :
      (name : CString) (f : ℕ) (o ctx : Option ℕ) (cmd : Cmd) (b : Board)
      → o ≡ some f
      → Answers cmd (run_action dev f) b
      → Queues cmd (report_action_result dev (provider_code dev) name o ctx) b
  unfolding report_action_result offered
  report_action_result-Queues name f none ctx cmd b e = λ a. ground arith
  report_action_result-Queues name f (some g) ctx cmd b e =
      rw (some_injective e) (λ a. ground arith)

  set_sim-Queues :
      (enabled : Bool) (o ctx : Option ℕ) (b : Board)
      → o ≡ some 8
      → Ready b
      → Queues
          (record (plain_cmd set_disconnect_sim) { enabled = enabled })
          (set_sim dev (provider_code dev) o ctx (if enabled then codes "on" else codes "off"))
          b
  unfolding app_set_disconnect_sim_enabled set_disconnect_sim_enabled on_session queue_or_timeout
      queue_command offered same_text
  set_sim-Queues enabled none ctx b e r = ground arith
  set_sim-Queues true (some f) ctx b e r = ground arith
  set_sim-Queues false (some f) ctx b e r = ground arith

  usage-Refuses : (text : CString) (b : Board) → Refuses (usage dev text) b
  unfolding offered
  usage-Refuses text b = ground arith

  no_arguments-Refuses :
      (text : CString) (act : BoardAct ℕ) (name word : CString) (words : List CString) (b : Board)
      → Refuses (no_arguments dev (provider_code dev) text act (name ∷ (word ∷ words))) b
  no_arguments-Refuses text act name word words b = let u = usage-Refuses text b in ground arith

  switch-Queues :
      (enabled : Bool) (b : Board)
      → Ready b
      → Queues
          (record (plain_cmd set_disconnect_sim) { enabled = enabled })
          (cmd_disconnect_sim dev
            (provider_code dev)
            (codes "disconnect_sim" ∷ ((if enabled then codes "on" else codes "off") ∷ [])))
          b
  unfolding cmd_disconnect_sim snapshot_providers same_text
  switch-Queues true b r =
      set_sim-Queues true b.console.providers.set_disconnect_sim_enabled
        b.console.providers.disconnect_sim_ctx b (ap Providers.set_disconnect_sim_enabled r.wired) r
  switch-Queues false b r =
      set_sim-Queues false b.console.providers.set_disconnect_sim_enabled
        b.console.providers.disconnect_sim_ctx b (ap Providers.set_disconnect_sim_enabled r.wired) r

  -- With the application's providers attached and the session initialised, "publish" and "rebirth" at
  -- the console offer the session's queue exactly one command, that for an immediate NDATA or that
  -- for a new birth, and the exit code is 0 just where the queue takes it and 1 otherwise.
  -- "disconnect_sim on" and "disconnect_sim off" do the same with the command that switches the
  -- simulator to just that. With a word too many, all three exit
  -- with 1, offer nothing and leave the session alone.
  pub console_requests :
      (b : Board)
      → Ready b
      → Queues
          (plain_cmd force_publish)
          (cmd_publish dev (provider_code dev) (codes "publish" ∷ []))
          b
        × Queues
            (plain_cmd force_rebirth)
            (cmd_rebirth dev (provider_code dev) (codes "rebirth" ∷ []))
            b
        × ((enabled : Bool)
            → Queues
                (record (plain_cmd set_disconnect_sim) { enabled = enabled })
                (cmd_disconnect_sim dev
                  (provider_code dev)
                  (codes "disconnect_sim" ∷ ((if enabled then codes "on" else codes "off") ∷ [])))
                b)
        × ((name word : CString) (words : List CString)
            → Refuses (cmd_publish dev (provider_code dev) (name ∷ (word ∷ words))) b
              × Refuses (cmd_rebirth dev (provider_code dev) (name ∷ (word ∷ words))) b
              × ((more : CString)
                  → Refuses
                      (cmd_disconnect_sim dev (provider_code dev) (name ∷ (word ∷ (more ∷ words))))
                      b))
  unfolding cmd_publish cmd_rebirth cmd_disconnect_sim snapshot_providers
  console_requests b r = (
    report_action_result-Queues (codes "publish") 6 b.console.providers.request_publish
        b.console.providers.publish_ctx (plain_cmd force_publish) b
        (ap Providers.request_publish r.wired) (publish-Answers b r),
    report_action_result-Queues (codes "rebirth") 7 b.console.providers.request_rebirth
        b.console.providers.rebirth_ctx (plain_cmd force_rebirth) b
        (ap Providers.request_rebirth r.wired) (rebirth-Answers b r),
    λ enabled. switch-Queues enabled b r,
    λ name word words. (
      no_arguments-Refuses (codes "publish")
          (λ c.
            report_action_result dev (provider_code dev) (codes "publish")
              c.console.providers.request_publish c.console.providers.publish_ctx c)
          name word words b,
      no_arguments-Refuses (codes "rebirth")
          (λ c.
            report_action_result dev (provider_code dev) (codes "rebirth")
              c.console.providers.request_rebirth c.console.providers.rebirth_ctx c)
          name word words b,
      λ more. usage-Refuses (codes "disconnect_sim [status|on|off]") b,
    ),
  )
