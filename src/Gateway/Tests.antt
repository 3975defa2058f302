-- ===== src/Gateway/Tests.antt =====
-- Runs of the gateway's log and output.
use nap_cli.Prelude.{refl, ◌≡◌, true, some, [], ◌∷◌, arith}
use nap_cli.Gateway.Log.{Bytes, IsCompacted, compact_log_file, compact_log_file-IsCompacted}
use nap_cli.Gateway.Output.{
  Text, IsDelta, output_delta, output_delta-IsDelta, strip_prefix, after_overlap,
}

-- Two lines.
abbrev log : Bytes
log = 97 ∷ 98 ∷ 10 ∷ 99 ∷ 10 ∷ []

compact_log_file-IsCompacted_example : IsCompacted 4 log (compact_log_file 4 true true (some log))
compact_log_file-IsCompacted_example =
    compact_log_file-IsCompacted 4 log (omega arith) (omega arith)

abbrev before : Text
before = 1 ∷ 2 ∷ 3 ∷ []

abbrev now : Text
now = 2 ∷ 3 ∷ 4 ∷ []

output_delta-IsDelta_example : IsDelta before now (output_delta (some before) now)
output_delta-IsDelta_example = output_delta-IsDelta before now

longest_overlap : output_delta (some (1 ∷ 2 ∷ 1 ∷ 2 ∷ [])) (1 ∷ 2 ∷ 3 ∷ []) ≡ 3 ∷ []
unfolding output_delta strip_prefix after_overlap
longest_overlap = refl
