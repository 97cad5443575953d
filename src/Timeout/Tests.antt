-- ===== src/Timeout/Tests.antt =====
-- Runs of the timeouts.
use xynet.Prelude.{◌≡◌, refl}
use xynet.Prelude.Int.{negsuc}
use xynet.Timeout.{timeout_storage}

storage_negative :
    timeout_storage (negsuc 1500000000) ≡ record { tv_sec = negsuc 0; tv_nsec = negsuc 500000000 }
unfolding timeout_storage
storage_negative = refl
