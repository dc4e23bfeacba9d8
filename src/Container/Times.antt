-- ===== src/Container/Times.antt =====
-- utimes.go: setting the times of a file without following a link.
use konk.Base.{ℕ, zero, suc, ℤ, negsuc, String, List, [], ◌∷◌, ok, err, errorf, wrap, Fallible}

-- `_AT_FDCWD`, which is -0x64.
abbrev pub at_fdcwd : ℤ
at_fdcwd = negsuc 99

unfoldable pub errno_err : ℕ → Fallible
errno_err zero = ok tt
errno_err (suc e) = err (errorf "Some error code %v")

-- `byte_ptr` is `syscall.BytePtrFromString`, which refuses a text with a zero byte; `syscall` is the
-- call SYS_UTIMENSAT, which gives its error number. A `Timespec` is its nanoseconds.
module _ {W : Type 0} (byte_ptr : String → Fallible)
    (syscall : ℤ → String → List ℤ → ℕ → W → ℕ × W) where
  unfoldable pub utimensat : ℤ → String → List ℤ → ℕ → W → Fallible × W
  utimensat fd path ts flags w = elim (byte_ptr path) [
    | err e ↦ (err e, w)
    | ok _ ↦ let (e, w') = syscall fd path ts flags w in (errno_err e, w')
  ]

  unfoldable pub utimes_nano_flags : String → List ℤ → ℕ → W → Fallible × W
  utimes_nano_flags path (atime ∷ mtime ∷ []) flags w =
      utimensat at_fdcwd path (atime ∷ mtime ∷ []) flags w
  utimes_nano_flags path _ flags w = (err (errorf "EINVAL"), w)

  unfoldable pub chtimes_flags : String → ℤ → ℤ → ℕ → W → Fallible × W
  chtimes_flags name atime mtime flags w =
      let (r, w') = utimes_nano_flags name (atime ∷ mtime ∷ []) flags w in
      elim r [ ok _ ↦ (ok tt, w') | err e ↦ (err (wrap "chtimes" e), w') ]
