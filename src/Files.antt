-- ===== src/Files.antt =====
-- The file system that the program reads and writes through os and path/filepath, as an interface.
use neth.Base.{ℕ, ◌≡◌, Bool, true, List, Option, some, if◌then◌else◌}
use neth.Base.Text.{Text}

-- `write` is os.WriteFile with a mode, and says whether it succeeded; what a write leaves that fails
-- is open. `same_file` says which paths name one file.
pub record FileSystem : Type 1 where
  pub State : Type 0
  pub read : State → Text → Option (List ℕ)
  pub write : State → Text → List ℕ → ℕ → State × Bool
  pub join : Text → Text → Text
  pub same_file : Text → Text → Bool

-- A file that was written is read back, and no other file changes.
pub record KeepsFiles (fs : FileSystem) : Type 0 where
  pub same_file_refl : (path : Text) → fs.same_file path path ≡ true
  pub read-write :
      (s : fs.State) (path other : Text) (body : List ℕ) (mode : ℕ)
      → (fs.write s path body mode).1 ≡ true
      → fs.read (fs.write s path body mode).0 other
        ≡ (if fs.same_file path other then some body else fs.read s other)
