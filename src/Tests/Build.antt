-- ===== src/Tests/Build.antt =====
-- The build script of build.rs, run where a file is what its path holds.
use embassy_sandbox.Prelude.{
  ℕ, ◌≡◌, refl, ◌∙◌, ap, Option, none, some, List, [], ◌∷◌, ◌++◌, codes, if◌then◌else◌,
}
use embassy_sandbox.Cli.{same}
use embassy_sandbox.Cli.Positions.{same_refl}
use embassy_sandbox.Build.{Std, Files, main, directives, main-Holds}

abbrev Disk : Type 0
Disk = List ℕ → Option (List ℕ)

abbrev keep : List ℕ → List ℕ → Disk → Disk
keep file bytes disk path = if same path file then some bytes else disk path

abbrev std : Std
std = record {
  World = Disk;
  PathBuf = List ℕ;
  File = List ℕ;
  var_os = λ name. some (codes "out");
  join = λ path name. path ++ codes "/" ++ name;
  display = λ path. path;
  create = λ path disk. some (path, disk);
  write_all = λ file bytes disk. some (keep file bytes disk);
  include_bytes = λ name. 77 ∷ 69 ∷ [];
}

abbrev files : Files std
files = record {
  contents = λ path disk. disk path;
  written = λ path bytes file w w' w'' opened wrote.
      let same_file : file ≡ path = cc in
      let kept : w'' ≡ keep file bytes w' = cc in
      ap (λ disk. disk path) kept
      ∙ ap (λ f. keep f bytes w' path) same_file
      ∙ rw (same_refl path) refl;
}

abbrev empty : Disk
empty path = none

abbrev disk : Disk
disk = keep (codes "out/memory.x") (77 ∷ 69 ∷ []) empty

main-Holds_example :
    (out : List ℕ) × (some (codes "out") ≡ some out)
    × (disk (out ++ codes "/" ++ codes "memory.x") ≡ some (77 ∷ 69 ∷ []))
    × (rest : List (List ℕ)) × (directives std (codes "out")
        ≡ (codes "cargo:rustc-link-search=" ++ out) ∷ rest)
unfolding main
main-Holds_example = main-Holds std files empty disk (directives std (codes "out")) refl
