-- ===== src/Build.antt =====
-- build.rs: the build script, which puts the linker script where the linker looks for it.
use embassy_sandbox.Prelude.{
  ℕ, ◌≡◌, refl, sym, ap, ◌∙◌, Option, none, some, List, [], ◌∷◌, ◌++◌, codes, arith,
}
use embassy_sandbox.Prelude.{Outcome, done, expect, ◌>>=◌}

-- What the script uses of std, with `Err(_)` as `none`, and `include_bytes!`. Texts are lists of
-- characters.
pub record Std : Type 1 where
  pub World : Type 0
  pub PathBuf : Type 0
  pub File : Type 0
  pub var_os : List ℕ → Option PathBuf
  pub join : PathBuf → List ℕ → PathBuf
  pub display : PathBuf → List ℕ
  pub create : PathBuf → World → Option (File × World)
  pub write_all : File → List ℕ → World → Option World
  pub include_bytes : List ℕ → List ℕ

expect-done :
    {A B : Type 0} (o : Option A) (f : A → Outcome B) (y : B)
    → (expect o >>= f) ≡ done y
    → (x : A) × (o ≡ some x) × (f x ≡ done y)
expect-done none f y e = absurd (ground arith)
expect-done (some x) f y e = (x, refl, e)

module _ (std : Std) where
  open std use {World, PathBuf, File, var_os, join, display, create, write_all, include_bytes}

  -- The lines that are printed, which cargo reads.
  abbrev pub directives : PathBuf → List (List ℕ)
  directives out =
      (codes "cargo:rustc-link-search=" ++ display out)
      ∷ codes "cargo:rerun-if-changed=memory.x"
      ∷ codes "cargo:rustc-link-arg-bins=--nmagic"
      ∷ codes "cargo:rustc-link-arg-bins=-Tlink.x"
      ∷ []

  unfoldable pub main : World → Outcome (World × List (List ℕ))
  main w = do
    out ← expect (var_os (codes "OUT_DIR"))
    (file, created) ← expect (create (join out (codes "memory.x")) w)
    written ← expect (write_all file (include_bytes (codes "memory.x")) created)
    done (written, directives out)

  -- What a file holds, for files that can be created and written.
  pub record Files : Type 0 where
    pub contents : PathBuf → World → Option (List ℕ)
    pub written :
        (path : PathBuf) (bytes : List ℕ) (file : File) (w w' w'' : World)
        → create path w ≡ some (file, w')
        → write_all file bytes w' ≡ some w''
        → contents path w'' ≡ some bytes

  -- When the script does not panic, the first line that it prints tells the linker to look in the
  -- directory of `OUT_DIR`, and the file `memory.x` there holds the linker script.
  pub main-Holds :
      (files : Files) (w w' : World) (lines : List (List ℕ))
      → main w ≡ done (w', lines)
      → (out : PathBuf) × (var_os (codes "OUT_DIR") ≡ some out)
        × (files.contents (join out (codes "memory.x")) w'
            ≡ some (include_bytes (codes "memory.x")))
        × (rest : List (List ℕ)) × (lines
            ≡ (codes "cargo:rustc-link-search=" ++ display out) ∷ rest)
  unfolding main
  main-Holds files w w' lines e =
      let script = include_bytes (codes "memory.x") in
      let (out, named, e1) = expect-done (var_os (codes "OUT_DIR")) _ (w', lines) e in
      let path = join out (codes "memory.x") in
      let ((file, created), opened, e2) = expect-done (create path w) _ (w', lines) e1 in
      let (w'', wrote, e3) = expect-done (write_all file script created) _ (w', lines) e2 in
      let ended : w'' ≡ w' = cc in
      let printed : lines ≡ directives out = cc in
      let holds = files.written path script file w created w'' opened wrote in
      (
        out,
        named,
        sym (ap (files.contents path) ended) ∙ holds,
        codes "cargo:rerun-if-changed=memory.x"
            ∷ codes "cargo:rustc-link-arg-bins=--nmagic"
            ∷ codes "cargo:rustc-link-arg-bins=-Tlink.x"
            ∷ [],
        printed,
      )
