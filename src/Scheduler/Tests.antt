-- ===== src/Scheduler/Tests.antt =====
-- A host with two GPUs, and the theorems about the scheduler at that host.
use aether_runner.Base.{◌≡◌, refl, String, true, some, List, [], ◌∷◌, arith, Memᴰ, text_ne}
use aether_runner.Base.Int.{pos, ◌+ℤ◌, ◌-ℤ◌}
use aether_runner.Base.Machine.{sub64, wrap}
use aether_runner.Base.Assoc.{lookup, insert}
use aether_runner.Scheduler.{
  GpuResidency, Scheduler, new_scheduler, register_gpu, schedule, allocate, release, available,
  is_loaded, collect, classify, sort_slice, insert_sorted, more_available, first_candidate,
  to_result, can_slice_gpu,
}
use aether_runner.Scheduler.Placement.{Choice, schedule-Choice}
use aether_runner.Scheduler.Agreement.{IsKeyed, schedule-allocate}
use aether_runner.Scheduler.Accounting.{Inv}
use aether_runner.Scheduler.Ledger.{Lease, Books, held, close, total, on, workers}
use aether_runner.Scheduler.History.{
  Reach, start, next, registers, allocates, releases, Holds, Reach-Holds,
}
use aether_runner.Scheduler.Books.{release_twice, lease}

abbrev big : GpuResidency
big = record {
  gpu_uuid = "GPU-0";
  gpu_index = pos 0;
  total_vram_mb = pos 24000;
  allocated_vram = pos 14000;
  loaded_models = ("llama", true) ∷ [];
  active_workers = "w-1" ∷ [];
}

abbrev small : GpuResidency
small = record {
  gpu_uuid = "GPU-1";
  gpu_index = pos 1;
  total_vram_mb = pos 16000;
  allocated_vram = pos 0;
  loaded_models = [];
  active_workers = [];
}

abbrev host : Scheduler
host = record { gpus = ("GPU-0", big) ∷ ("GPU-1", small) ∷ [] }

-- The warm GPU wins although the cold one has more room.
warm_first :
    schedule host "llama" (pos 8000)
    ≡ some (record {
      gpu_uuid = "GPU-0";
      gpu_index = pos 0;
      is_warm_start = true;
      available_ram = pos 10000;
    })
unfolding schedule collect classify sort_slice insert_sorted more_available first_candidate
    to_result available is_loaded sub64 wrap ◌-ℤ◌ lookup
warm_first = refl

schedule-Choice_example : Choice host.gpus "llama" (pos 8000) (schedule host "llama" (pos 8000))
schedule-Choice_example = schedule-Choice host "llama" (pos 8000)

abbrev turned : Scheduler
turned = record { gpus = ("GPU-1", small) ∷ ("GPU-0", big) ∷ [] }

turn :
    {x y : String × GpuResidency} {e : String × GpuResidency}
    → Memᴰ e (x ∷ y ∷ [])
    → Memᴰ e (y ∷ x ∷ [])
turn (Memᴰ.head p) = Memᴰ.tail (Memᴰ.head p)
turn (Memᴰ.tail (Memᴰ.head p)) = Memᴰ.head p
turn (Memᴰ.tail (Memᴰ.tail m)) = elim m [ ]

host-IsKeyed : IsKeyed host.gpus
host-IsKeyed = record {
  distinct = ((text_ne "GPU-1" "GPU-0" refl, tt), (tt, tt));
  uuids = (refl, (refl, tt));
}

schedule-allocate_example :
    (can_slice_gpu host "GPU-0" (pos 8000) ≡ true)
    × ((allocate host "GPU-0" "w-2" "llama" (pos 8000)).1 ≡ true)
schedule-allocate_example =
    schedule-allocate host "llama" "w-2" (pos 8000)
      (record {
        gpu_uuid = "GPU-0";
        gpu_index = pos 0;
        is_warm_start = true;
        available_ram = pos 10000;
      })
      host-IsKeyed warm_first

host-Inv : Inv host
host-Inv = record { keyed = host-IsKeyed; sound = (omega arith, (omega arith, tt)) }

abbrev leases : List Lease
leases = lease "GPU-0" "w-1" (pos 14000) ∷ []

host-Books : Books host leases
unfolding total on workers ◌+ℤ◌
host-Books = ((refl, refl), ((refl, refl), tt))

allocate_passes : (allocate host "GPU-1" "w-2" "phi" (pos 6000)).1 ≡ true
unfolding allocate lookup available sub64 wrap ◌-ℤ◌
allocate_passes = refl

held_nothing : held "GPU-0" "w-9" leases ≡ pos 0
unfolding held
held_nothing = refl

found_big : lookup "GPU-0" host.gpus ≡ some big
unfolding lookup
found_big = refl

release_twice_example : ¬ Books (release host "GPU-0" "w-9" (pos 6000)) (close "GPU-0" "w-9" leases)
release_twice_example =
    release_twice host leases "GPU-0" "w-9" big (pos 6000) host-Inv host-Books found_big
      held_nothing (omega arith) (omega arith) (omega arith)

-- A GPU comes up, a worker takes 6000 of it, and gives it back.
abbrev one_gpu : Scheduler
one_gpu = register_gpu new_scheduler "GPU-1" (pos 1) (pos 16000)

abbrev one_lease : List Lease
one_lease = lease "GPU-1" "w-2" (pos 6000) ∷ []

one_gpu-allocates : (allocate one_gpu "GPU-1" "w-2" "phi" (pos 6000)).1 ≡ true
unfolding allocate lookup available sub64 wrap ◌-ℤ◌ register_gpu new_scheduler insert
one_gpu-allocates = refl

day :
    Reach
      (release
        (allocate one_gpu "GPU-1" "w-2" "phi" (pos 6000)).0
        "GPU-1"
        "w-2"
        (held "GPU-1" "w-2" one_lease))
      (close "GPU-1" "w-2" one_lease)
day =
    next
      (next
        (next start (
          registers "GPU-1" (pos 1) (pos 16000) (unfold on in refl) (omega arith) (omega arith) refl
            refl))
        (allocates "GPU-1" "w-2" "phi" (pos 6000) (omega arith) refl (rw one_gpu-allocates)))
      (releases "GPU-1" "w-2" refl refl)

Reach-Holds_example :
    Holds
      (release
        (allocate one_gpu "GPU-1" "w-2" "phi" (pos 6000)).0
        "GPU-1"
        "w-2"
        (held "GPU-1" "w-2" one_lease))
      (close "GPU-1" "w-2" one_lease)
Reach-Holds_example = Reach-Holds day
