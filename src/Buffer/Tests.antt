-- ===== src/Buffer/Tests.antt =====
-- Runs of the buffer sequences, and their theorems at concrete inputs.
use xynet.Prelude.{◌≡◌, refl, [], ◌∷◌, some}
use xynet.Buffer.{Iovec, BufferSequence, buffer_sequence, commit, get_iov_span}
use xynet.Buffer.Commit.{addresses, commit-addresses}

abbrev header : Iovec
header = record { iov_base = 100; iov_len = 2 }

abbrev body : Iovec
body = record { iov_base = 200; iov_len = 3 }

abbrev nothing : Iovec
nothing = record { iov_base = 300; iov_len = 0 }

abbrev two_entries : BufferSequence
two_entries = record { passed = []; pending = header ∷ body ∷ [] }

abbrev with_nothing : BufferSequence
with_nothing = record { passed = []; pending = header ∷ body ∷ nothing ∷ [] }

from_ranges :
    buffer_sequence (
      record { ranges_data = 100; ranges_size = 2; value_size = 1 }
      ∷ record { ranges_data = 200; ranges_size = 3; value_size = 1 }
      ∷ [])
    ≡ two_entries
unfolding buffer_sequence
from_ranges = refl

commit_three : get_iov_span (commit 3 two_entries) ≡ (some 1, 1)
unfolding commit get_iov_span
commit_three = refl

commit-addresses_example : addresses (commit 3 two_entries).pending ≡ 201 ∷ 202 ∷ []
commit-addresses_example = commit-addresses 3 two_entries
