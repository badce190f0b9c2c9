-- ===== src/Files/Descriptors.antt =====
-- The descriptors of a task: a file that is opened takes the least that is free, and closing it frees it again.
use os_agent.Base.{
  ℕ, zero, suc, ◌<◌, ◌≡◌, ◌≢◌, refl, ap, false, Bool-cases, inl, inr, ◌==◌, ◌∙◌, sym, Option, none,
  some, [], ◌∷◌, arith, length, leb,
}
use os_agent.Base.Results.{pos}
use os_agent.Files.{File, FdTable, copy_fds, alloc_fd, set_fd, file_at, open_fd, sys_close}

-- Descriptor `fd` was the least that was free; it now stands for `file`, and the others for what they did.
pub record IsOpened (fds fds' : FdTable) (file : File) (fd : ℕ) : Type 0 where
  pub was_free : file_at fds fd ≡ none
  pub least : (g : ℕ) → g < fd → file_at fds g ≢ none
  pub opened : file_at fds' fd ≡ some file
  pub others : (g : ℕ) → g ≢ fd → file_at fds' g ≡ file_at fds g

beyond : (file : File) (g : ℕ) → g ≢ 0 → file_at (some file ∷ []) g ≡ none
unfolding file_at
beyond file zero h = absurd (h refl)
beyond file (suc g) h = refl

behind :
    (file : File) (fds : FdTable) (g : ℕ)
    → g ≢ 0
    → file_at (some file ∷ fds) g ≡ file_at (none ∷ fds) g
unfolding file_at
behind file fds zero h = absurd (h refl)
behind file fds (suc g) h = refl

above :
    (fds : FdTable) (fd : ℕ) (f : File)
    → ((g : ℕ) → g < fd → file_at fds g ≢ none)
    → (g : ℕ) → g < suc fd
    → file_at (some f ∷ fds) g ≢ none
unfolding file_at
above fds fd f h zero below e = absurd (ground (arith, e))
above fds fd f h (suc g) below e = h g (omega (arith, below)) e

beside :
    (fds fds' : FdTable) (fd : ℕ) (f : File)
    → ((g : ℕ) → g ≢ fd → file_at fds' g ≡ file_at fds g)
    → (g : ℕ) → g ≢ suc fd
    → file_at (some f ∷ fds') g ≡ file_at (some f ∷ fds) g
unfolding file_at
beside fds fds' fd f h zero other = refl
beside fds fds' fd f h (suc g) other = h g (λ e. other (ap suc e))

alloc_fd-IsOpened :
    (fds : FdTable) (file : File)
    → IsOpened fds (set_fd (alloc_fd fds).1 (alloc_fd fds).0 (some file)) file (alloc_fd fds).0
unfolding alloc_fd set_fd file_at
alloc_fd-IsOpened [] file = record {
  was_free = refl;
  least = λ g h. absurd (omega (arith, h));
  opened = refl;
  others = beyond file;
}
alloc_fd-IsOpened (none ∷ fds) file = record {
  was_free = refl;
  least = λ g h. absurd (omega (arith, h));
  opened = refl;
  others = behind file fds;
}
alloc_fd-IsOpened (some f ∷ fds) file =
    let o = alloc_fd-IsOpened fds file in
    record {
      was_free = o.was_free;
      least = above fds _ f o.least;
      opened = o.opened;
      others = beside fds _ _ f o.others;
    }

file_at-set_fd :
    (fds : FdTable) (fd : ℕ) (x : Option File) (g : ℕ)
    → g ≢ fd
    → file_at (set_fd fds fd x) g ≡ file_at fds g
unfolding file_at set_fd
file_at-set_fd [] fd x g other = refl
file_at-set_fd (y ∷ fds) zero x zero other = absurd (other refl)
file_at-set_fd (y ∷ fds) zero x (suc g) other = refl
file_at-set_fd (y ∷ fds) (suc fd) x zero other = refl
file_at-set_fd (y ∷ fds) (suc fd) x (suc g) other =
    file_at-set_fd fds fd x g (λ e. other (ap suc e))

-- A descriptor that stands for a file is within the table, and can be freed.
freed :
    (fds : FdTable) (fd : ℕ) (file : File)
    → file_at fds fd ≡ some file
    → (leb (length fds) fd ≡ false) × (file_at (set_fd fds fd none) fd ≡ none)
unfolding file_at set_fd
freed [] fd file e = absurd (ground (arith, e))
freed (x ∷ fds) zero file e = (ground arith, refl)
freed (x ∷ fds) (suc fd) file e =
    let (within, free) = freed fds fd file e in (ground (arith, within), free)

close_lem :
    (fds : FdTable) (fd : ℕ) (file : File)
    → file_at fds fd ≡ some file
    → sys_close fds fd ≡ (pos 0, set_fd fds fd none)
unfolding sys_close
close_lem fds fd file e = let (within, free) = freed fds fd file e in rw (within, sys_close, e) refl

restored :
    (fds fds' : FdTable) (file : File) (fd g : ℕ)
    → IsOpened fds fds' file fd
    → file_at (sys_close fds' fd).1 g ≡ file_at fds g
restored fds fds' file fd g o =
    let closed = close_lem fds' fd file o.opened in
    let (within, free) = freed fds' fd file o.opened in
    ap (λ r. file_at r.1 g) closed ∙ elim (Bool-cases (g == fd)) [
      | inl same ↦
          let e : g ≡ fd = ground (arith, same) in
          let both : file_at (set_fd fds' fd none) fd ≡ file_at fds fd = free ∙ sym o.was_free in
          rw e both
      | inr differ ↦
          let other : g ≢ fd = λ e. ground (arith, e, differ) in
          file_at-set_fd fds' fd none g other ∙ o.others g other
    ]

-- `fork` gives the child the same descriptors.
pub copy_fds_lem : (fds : FdTable) → copy_fds fds ≡ fds
unfolding copy_fds
copy_fds_lem [] = refl
copy_fds_lem (none ∷ fds) = ap (λ r. none ∷ r) (copy_fds_lem fds)
copy_fds_lem (some file ∷ fds) = ap (λ r. some file ∷ r) (copy_fds_lem fds)

-- The file goes to the least descriptor that was free, which is returned, and no other descriptor changes.
-- Closing that descriptor succeeds, and each then stands for what it stood for before.
pub open_fd-sys_close :
    (fds : FdTable) (file : File)
    → (fd : ℕ) × (fds' : FdTable) × (open_fd fds file ≡ (pos fd, fds'))
      × IsOpened fds fds' file fd
      × ((sys_close fds' fd).0 ≡ pos 0)
      × ((g : ℕ) → file_at (sys_close fds' fd).1 g ≡ file_at fds g)
unfolding open_fd
open_fd-sys_close fds file =
    let fd = (alloc_fd fds).0 in
    let fds' = set_fd (alloc_fd fds).1 fd (some file) in
    let o = alloc_fd-IsOpened fds file in
    (
      fd,
      fds',
      refl,
      o,
      ap (λ r. r.0) (close_lem fds' fd file o.opened),
      λ g. restored fds fds' file fd g o,
    )
