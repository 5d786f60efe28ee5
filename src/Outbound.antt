-- ===== src/Outbound.antt =====
-- internal/outbound/outbound.go: the writer that keeps the first bytes of a body. Counters are int64 patterns.
pub mod Prefix
pub mod Request
mod Tests
use proxy_scope.Prelude.{◌++◌, take, [], if◌then◌else◌, length, ℕ}
use proxy_scope.Prelude.Text.{Bytes}
use proxy_scope.Prelude.Word.{add64, sub64, lt64}

pub record BodyCapture : Type 0 where
  pub max : ℕ
  pub buf : Bytes
  pub total : ℕ

abbrev pub new_capture : ℕ → BodyCapture
new_capture max = record { max = max; buf = []; total = 0 }

-- What `Write` appends to the buffer.
unfoldable pub kept : ℕ → Bytes → Bytes
kept room p = if lt64 0 room then (if lt64 room (length p) then take room p else p) else []

-- `Write` returns the number of bytes it was given.
unfoldable pub write : Bytes → BodyCapture → BodyCapture × ℕ
unfolding kept
write p c = (
  record c { total = add64 c.total (length p); buf = c.buf ++ kept (sub64 c.max (length c.buf)) p },
  length p,
)
