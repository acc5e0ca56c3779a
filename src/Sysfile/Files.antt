-- ===== src/Sysfile/Files.antt =====
-- What kernel/sysfile.c (Lab-5 Task 5.2) needs of the table of open files.
use cs344_os_lab.Base.{ℕ, ◌+◌, ◌-◌, ◌≡◌, ◌≢◌}

-- `filedup` and `fileclose`, and the reference count `f->ref`
pub record FileTable (F : Type 0) : Type 0 where
  pub filedup : F → ℕ → F
  pub fileclose : F → ℕ → F
  pub refs : F → ℕ → ℕ

-- They add a reference to the file and take one away, and leave the other files' counts.
pub record Counts {F : Type 0} (files : FileTable F) : Type 0 where
  pub dup_here : (t : F) (f : ℕ) → files.refs (files.filedup t f) f ≡ files.refs t f + 1
  pub dup_else : (t : F) (f g : ℕ) → g ≢ f → files.refs (files.filedup t f) g ≡ files.refs t g
  pub close_here : (t : F) (f : ℕ) → files.refs (files.fileclose t f) f ≡ files.refs t f - 1
  pub close_else : (t : F) (f g : ℕ) → g ≢ f → files.refs (files.fileclose t f) g ≡ files.refs t g
