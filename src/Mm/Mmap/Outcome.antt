-- ===== src/Mm/Mmap/Outcome.antt =====
-- What `do_mmap` comes to.
use prettyos.Common.{ℕ, ◌≡◌, ◌⊎◌}
use prettyos.Mm.Mmap.{Mapped, failed, at_null}

-- No area is mapped: an error, or an access at NULL.
pub Fails : Mapped → Type 0
Fails m = (m ≡ at_null) ⊎ ((e : ℕ) × (m ≡ failed e))
