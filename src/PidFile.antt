-- ===== src/PidFile.antt =====
-- The class PIDFile of src/io.cpp, which the commands hold while they run, as operations on files.
pub mod System
pub mod Exclusion
use osmdbt.Common.{ℕ, ◌≡◌, refl, List, [], ◌∷◌, ◌++◌, Bytes, codes}
use osmdbt.Number.{to_string}
use osmdbt.Files.{Op, excl_write_open, write, unlink}

unfoldable pub pid_path : Bytes → Bytes → Bytes
pid_path dir name = dir ++ (name ++ codes ".pid")

pub pid_text : ℕ → Bytes
pid_text pid = to_string pid ++ codes "\n"

-- The constructor; without a directory there is no pid file.
unfoldable pub pid_file_open : Bytes → Bytes → ℕ → List Op
unfolding pid_path pid_text
pid_file_open [] name pid = []
pid_file_open (c ∷ dir) name pid =
    let path = pid_path (c ∷ dir) name in excl_write_open path ∷ write path (pid_text pid) ∷ []

-- The destructor.
unfoldable pub pid_file_close : Bytes → Bytes → List Op
unfolding pid_path
pid_file_close [] name = []
pid_file_close (c ∷ dir) name = unlink (pid_path (c ∷ dir) name) ∷ []
