-- ===== src/App/ConsoleStage.antt =====
-- main/app_main.c: the console in the start of the firmware.
use esp32_sparkplug.Prelude.{◌≡◌, refl, true, some, List, [], ◌∷◌, arith}
use esp32_sparkplug.Esp.{EspErr, esp_ok}
use esp32_sparkplug.Device.{DeviceCall}
use esp32_sparkplug.Console.State.{Providers}
use esp32_sparkplug.Console.Providers.{set_providers}
use esp32_sparkplug.Console.Repl.{
  CommandDef, commands, register_command, register_all, register_afresh, register_commands_once,
  new_repl, initialized, run_repl,
}
use esp32_sparkplug.Console.Repl
use esp32_sparkplug.App.Main.{initialize_console}
use esp32_sparkplug.App.Status.{provider_code, app_providers}
use esp32_sparkplug.App.Stages.{Ensures, on_ok-Ensures, test-Ensures, Connected}
use esp32_sparkplug.Board.{Devices, Board, BoardAct, on_ok, pure, log}

-- A stage with the console's providers.
abbrev pub Wired : Providers → Board → Type 0
Wired q b = Connected b × (b.console.providers ≡ q)

-- The console runs, with the application's providers.
abbrev pub Complete : Board → Type 0
Complete b = Wired app_providers b × (b.console.started ≡ true)

module _ (dev : Devices) (q : Providers) where
  register_command-Wired :
      (c : CommandDef) → Ensures (Wired q) (Wired q) (register_command dev (provider_code dev) c)
  unfolding register_command
  register_command-Wired c b p ok = p

  register_all-Wired :
      (cs : List CommandDef) → Ensures (Wired q) (Wired q) (register_all dev (provider_code dev) cs)
  unfolding register_all
  register_all-Wired [] = λ b p ok. p
  register_all-Wired (c ∷ cs) =
      on_ok-Ensures (Wired q) (Wired q) (Wired q) (register_command dev (provider_code dev) c)
        (register_all dev (provider_code dev) cs) (register_command-Wired c) (register_all-Wired cs)

  register_afresh-Wired : Ensures (Wired q) (Wired q) (register_afresh dev (provider_code dev))
  register_afresh-Wired b p ok =
      let all =
        register_all-Wired (commands dev (provider_code dev)) (log DeviceCall.register_help b) p in
      ground arith

  register_commands_once-Wired :
      Ensures (Wired q) (Wired q) (register_commands_once dev (provider_code dev))
  unfolding register_commands_once
  register_commands_once-Wired =
      test-Ensures (Wired q) (Wired q) (λ b. b.console.commands_registered) (λ b. b) (pure esp_ok)
        (register_afresh dev (provider_code dev)) (λ b p. p) (λ b p e ok. p) register_afresh-Wired

  new_repl-Wired : Ensures (Wired q) (Wired q) (new_repl dev (provider_code dev))
  new_repl-Wired b p ok = ground arith

  Repl_init-Wired : Ensures (Wired q) (Wired q) (Repl.init dev (provider_code dev))
  unfolding Repl.init
  Repl_init-Wired =
      test-Ensures (Wired q) (Wired q) (λ b. b.console.initialized) (λ b. b) (pure esp_ok) set_up
        (λ b p. p) (λ b p e ok. p)
        (on_ok-Ensures (Wired q) (Wired q) (Wired q) (new_repl dev (provider_code dev)) commands_too
          new_repl-Wired
          (on_ok-Ensures (Wired q) (Wired q) (Wired q)
            (register_commands_once dev (provider_code dev)) (initialized dev (provider_code dev))
            register_commands_once-Wired (λ b p ok. p)))
    where
      commands_too : BoardAct EspErr
      commands_too =
          on_ok (register_commands_once dev (provider_code dev))
            (initialized dev (provider_code dev))

      set_up : BoardAct EspErr
      set_up = on_ok (new_repl dev (provider_code dev)) commands_too

module _ (dev : Devices) where
  run_repl-Complete : Ensures (Wired app_providers) Complete (run_repl dev (provider_code dev))
  run_repl-Complete b p ok = ground arith

  Repl_start-Complete : Ensures (Wired app_providers) Complete (Repl.start dev (provider_code dev))
  unfolding Repl.start
  Repl_start-Complete =
      test-Ensures (Wired app_providers) Complete (λ b. b.console.started) (λ b. b) (pure esp_ok)
        (on_ok (Repl.init dev (provider_code dev)) (run_repl dev (provider_code dev))) (λ b p. p)
        (λ b p e ok. (p, e))
        (on_ok-Ensures (Wired app_providers) (Wired app_providers) Complete
          (Repl.init dev (provider_code dev)) (run_repl dev (provider_code dev))
          (Repl_init-Wired dev app_providers) run_repl-Complete)

  pub initialize_console-Complete : Ensures Connected Complete (initialize_console dev)
  unfolding initialize_console set_providers
  initialize_console-Complete =
      on_ok-Ensures Connected Connected Complete (Repl.init dev (provider_code dev)) wire
        (λ b p ok. (Repl_init-Wired dev b.console.providers b (p, refl) ok).0)
        (on_ok-Ensures Connected (Wired app_providers) Complete (set_providers (some app_providers))
          (Repl.start dev (provider_code dev)) (λ b p ok. (p, refl)) Repl_start-Complete)
    where
      wire : BoardAct EspErr
      wire = on_ok (set_providers (some app_providers)) (Repl.start dev (provider_code dev))
