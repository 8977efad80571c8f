-- ===== src/Main/Startup.antt =====
-- The server that `main` of cmd/aether/main.go puts together: it is sane, and it stays sound.
use aether_runner.Base.{
  ◌≡◌, refl, sym, ◌∙◌, ap, ℕ, zero, suc, ◌<◌, String, Option, none, some, [], arith, text_cases,
  inl, inr,
}
use aether_runner.Base.Int.{ℤ, pos, pos_part, ◌≤ℤ◌}
use aether_runner.Base.Machine.{InRange, half_range}
use aether_runner.Base.Clock.{Duration}
use aether_runner.Base.Decimal.{itoa, atoi, read_int}
use aether_runner.Base.Decimal.Reading.{atoi-itoa}
use aether_runner.Scheduler.{Scheduler, new_scheduler}
use aether_runner.Scheduler.Accounting.{Inv, register_gpu-Inv}
use aether_runner.Worker.{ModelConfig}
use aether_runner.Pool.{new_worker_pool, count}
use aether_runner.Docker.{Docker}
use aether_runner.Api.Server.{Server, Steps}
use aether_runner.Api.Server.Sanity.{IsSane, IsSound, IsSane-IsSound, Steps-IsSound}
use aether_runner.Main.{
  Environment, setting, load_config, vram_mb, register_gpus, simulated_uuid, setup_simulated_gpus,
  pool_config, start_up,
}
use aether_runner.Main.Gpus.{positive_setting-InRange}

register_gpus-Inv :
    (rounds i : ℕ) (vram : ℤ) (s : Scheduler)
    → pos 0 ≤ℤ vram
    → pos_part vram < half_range
    → Inv s
    → Inv (register_gpus rounds i vram s)
unfolding register_gpus
register_gpus-Inv zero i vram s p f v = v
register_gpus-Inv (suc rounds) i vram s p f v =
    register_gpus-Inv rounds (suc i) vram _ p f
      (register_gpu-Inv s (simulated_uuid i) (pos i) vram v p f)

new_scheduler-Inv : Inv new_scheduler
unfolding new_scheduler
new_scheduler-Inv = record { keyed = record { distinct = tt; uuids = tt }; sound = tt }

nothing : (m : ModelConfig) → none ≡ some m → ⊥
nothing m e = cc

module _ {W : Type 0} (parse_duration : String → Option Duration) (getenv : Environment)
    (daemon : W) where
  -- The server that main puts together, for any environment that does not set AETHER_MAX_WORKERS to a negative number: the memory allocated on each GPU is between 0 and its total, each GPU stands under its own UUID, and the pool is within the maximum that is configured.
  pub start_up-IsSane :
      pos 0 ≤ℤ (load_config parse_duration getenv).max_workers
      → IsSane
          (pool_config (load_config parse_duration getenv))
          (start_up parse_duration getenv daemon)
  unfolding start_up setup_simulated_gpus new_worker_pool count vram_mb
  start_up-IsSane h =
      let vram =
        positive_setting-InRange (pos 24000) (getenv "AETHER_GPU_VRAM_MB") (omega arith)
          (omega arith) in
      record {
        gpus =
            register_gpus-Inv _ 0 _ new_scheduler (omega (arith, vram.0)) vram.1.0
              new_scheduler-Inv;
        pool = record { same_max = refl; within = omega arith; distinct = tt };
        models = λ r m e. absurd (nothing m e);
      }

  -- The server that main puts together, for any environment that does not set AETHER_MAX_WORKERS to a negative number, after any interleaving of requests for amounts of at least 0, goroutines and idle checks: the memory allocated on each GPU is between 0 and its total, and each worker stands under a key of its own.
  pub start_up-Steps :
      (docker : Docker W) {s' : Server W}
      → pos 0 ≤ℤ (load_config parse_duration getenv).max_workers
      → Steps docker (record { system = start_up parse_duration getenv daemon; tasks = [] }) s'
      → IsSound (pool_config (load_config parse_duration getenv)) s'.system
  start_up-Steps docker h steps =
      let config = pool_config (load_config parse_duration getenv) in
      Steps-IsSound docker config steps (IsSane-IsSound config _ (start_up-IsSane h))

atoi_nothing : atoi "" ≡ none
unfolding atoi read_int
atoi_nothing = refl

setting_read :
    (default z : ℤ) (value : String) → InRange z → value ≡ itoa z → setting atoi default value ≡ z
unfolding setting
setting_read default z value h e =
    let read = ap atoi e ∙ atoi-itoa z h in
    elim (text_cases value "") [
      | inl (q, _) ↦ let bad : none ≡ some z = sym (ap atoi q ∙ atoi_nothing) ∙ read in cc
      | inr (_, t) ↦ rw (t, read)
    ]

-- A port and a maximum of workers that are printed into the environment are what loadConfig reads there.
pub load_config_reads :
    (parse_duration : String → Option Duration) (getenv : Environment) (port max_workers : ℤ)
    → InRange port
    → InRange max_workers
    → getenv "AETHER_PORT" ≡ itoa port
    → getenv "AETHER_MAX_WORKERS" ≡ itoa max_workers
    → ((load_config parse_duration getenv).port ≡ port)
      × ((load_config parse_duration getenv).max_workers ≡ max_workers)
unfolding load_config
load_config_reads parse_duration getenv port max_workers h k p m =
    (setting_read (pos 8080) port _ h p, setting_read (pos 100) max_workers _ k m)
