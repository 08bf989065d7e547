-- ===== src/Transfer/Status.antt =====
-- The values of a chunk's `Acked` (client-plugin/upload/upload.go, ChunkStatus).
use sky_flow.Base.{ℕ}

abbrev pub init : ℕ
init = 0

abbrev pub transferring : ℕ
transferring = 1

abbrev pub transfer_failed : ℕ
transfer_failed = 2

abbrev pub completed : ℕ
completed = 3
