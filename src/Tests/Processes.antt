-- ===== src/Tests/Processes.antt =====
-- The theorems on pid files at concrete inputs.
use osmdbt.Common.{
  ℕ, ◌≡◌, refl, false, true, [], ◌∷◌, Option, none, some, Bytes, codes, bytes_eq, if◌then◌else◌,
}
use osmdbt.Files.{run_op, run_ops}
use osmdbt.PidFile.{pid_file_open, pid_text}
use osmdbt.PidFile.Exclusion.Lock.{LockStep, Holds, holder, Step-LockStep}
use osmdbt.PidFile.Exclusion.{mutual_exclusion, pid_file_open-held, pid_file_open-free}
use osmdbt.PidFile.System.{
  outside, opened, inside, dead, System, at, path, create, fill, crash, Reach, start, later,
}

abbrev dir : Bytes
dir = codes "/"

abbrev name : Bytes
name = codes "osmdbt-get-log"

abbrev pid_path_here : Bytes
pid_path_here = path b'r' dir name

abbrev empty : System
empty = record { disk = λ p. none; pc = λ i. outside }

abbrev begun : System
begun = record {
  disk = λ p. if bytes_eq pid_path_here p then some [] else none;
  pc = at empty.pc 3 opened;
}

abbrev running : System
running = record {
  disk = λ p. if bytes_eq pid_path_here p then some (pid_text 731) else begun.disk p;
  pc = at begun.pc 3 inside;
}

abbrev crashed : System
crashed = record { disk = running.disk; pc = at running.pc 3 dead }

empty-Reach : Reach b'r' dir name empty
empty-Reach = start refl (λ i. refl)

running-Reach : Reach b'r' dir name running
unfolding pid_file_open run_op bytes_eq
running-Reach =
    later (later empty-Reach (create 3 731 refl refl refl refl)) (fill 3 731 refl refl refl refl)

crashed-Reach : Reach b'r' dir name crashed
crashed-Reach = later running-Reach (crash 3 (λ h. cc) refl refl)

mutual_exclusion_example : running.pc 4 ≡ outside
mutual_exclusion_example =
    mutual_exclusion b'r' dir name running running-Reach 3 4 (λ h. cc) (λ h. cc)

pid_file_open-held_example :
    run_ops (pid_file_open (b'r' ∷ dir) name 732) crashed.disk ≡ (crashed.disk, false)
pid_file_open-held_example = pid_file_open-held b'r' dir name crashed crashed-Reach 3 732 (λ h. cc)

pid_file_open-free_example :
    ((run_ops (pid_file_open (b'r' ∷ dir) name 732) empty.disk).1 ≡ true)
    × ((run_ops (pid_file_open (b'r' ∷ dir) name 732) empty.disk).0 pid_path_here
        ≡ some (pid_text 732))
pid_file_open-free_example = pid_file_open-free b'r' dir name empty empty-Reach 732 (λ i. refl)

Step-LockStep_example : (h : Option ℕ) × LockStep (some 3) h × Holds crashed h
Step-LockStep_example =
    Step-LockStep b'r' dir name running crashed (some 3) running-Reach (crash 3 (λ h. cc) refl refl)
      (holder 3 (λ h. cc))
