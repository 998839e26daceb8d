-- ===== src/IdGenerator/Tests.antt =====
-- An id from one random number.
use react_native_sync_provid.Common.{ℕ, ◌≡◌, length, arith}
use react_native_sync_provid.Backoff.Exact.{Fraction}
use react_native_sync_provid.IdGenerator.{generate_id}
use react_native_sync_provid.IdGenerator.Uuid.{IsUuid, generate_id-IsUuid}

abbrev two_thirds : ℕ → Fraction
two_thirds i = record { numerator = 2; denominator = 3 }

generate_id-IsUuid_example :
    (length (generate_id two_thirds) ≡ 36) × IsUuid (generate_id two_thirds)
generate_id-IsUuid_example = generate_id-IsUuid two_thirds λ i. omega arith
