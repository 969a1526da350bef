-- ===== src/Sabcl/Replay.antt =====
-- packages/sabcl/src/replay: `SabclReplayStore` and `InMemoryReplayStore` of replay-store.ts, and
-- `RedisReplayStore` of redis-replay-store.ts. The Redis client is a parameter; a claim that fails
-- is a thrown error.
pub mod Laws
use aegis_shield_phase.Prelude.{
  ℕ, ◌+◌, ◌*◌, Bool, true, false, not, ◌&&◌, List, [], ◌∷◌, ◌++◌, leb, ◌==◌, if◌then◌else◌, any,
  filter, max, Result, ok,
}
use aegis_shield_phase.Sabcl.Protocol.{Bytes, SabclFailure}

abbrev pub same_bytes : Bytes → Bytes → Bool
same_bytes [] [] = true
same_bytes (a ∷ xs) (b ∷ ys) = a == b && same_bytes xs ys
same_bytes _ _ = false

-- A message's identifier with its expiry in milliseconds.
abbrev pub Seen : Type 0
Seen = List (Bytes × ℕ)

abbrev pub sweep : ℕ → Seen → Seen
sweep now seen = filter (λ s. not (leb s.1 now)) seen

abbrev pub has : Bytes → Seen → Bool
has mid seen = any (λ s. same_bytes s.0 mid) seen

-- `SabclReplayStore.remember`, and the client's `SET NX EX`: the store's clock in milliseconds, the
-- identifier, the seconds to keep it, the store; whether it was claimed, and the store after.
abbrev pub Claims : Type 0 → Type 0
Claims S = ℕ → Bytes → ℕ → S → Result SabclFailure Bool × S

unfoldable pub remember : ℕ → Bytes → ℕ → Seen → Result SabclFailure Bool × Seen
remember now mid ttl_seconds seen =
    if has mid (sweep now seen)
    then (ok false, sweep now seen)
    else (ok true, sweep now seen ++ (mid, now + ttl_seconds * 1000) ∷ [])

abbrev pub replay_key : Bytes → Bytes → Bytes
replay_key prefix mid = prefix ++ b'r' ∷ b'e' ∷ b'p' ∷ b'l' ∷ b'a' ∷ b'y' ∷ b':' ∷ mid

-- `RedisReplayStore.remember`: `set` answers whether Redis replied OK.
unfoldable pub redis_remember : {S : Type 0} → Claims S → Bytes → Claims S
redis_remember set prefix now mid ttl_seconds store =
    set now (replay_key prefix mid) (max 1 ttl_seconds) store
