-- ===== src/Sabcl/Replay/Laws.antt =====
-- packages/sabcl/src/replay: what a replay store promises, and that both stores keep it.
use aegis_shield_phase.Prelude.{
  ℕ, ◌+◌, ◌*◌, ◌≤◌, ◌<◌, ◌≡◌, refl, Bool, true, false, ◌&&◌, ◌||◌, [], ◌∷◌, ◌++◌, arith, leb, any,
  max, ok, Bool-cases, inl, inr,
}
use aegis_shield_phase.Sabcl.Protocol.{Bytes}
use aegis_shield_phase.Sabcl.Replay.{
  same_bytes, Seen, sweep, has, Claims, remember, replay_key, redis_remember,
}

-- A claimed identifier is held for its time, whatever else is claimed, and is not claimed again
-- before it ends. `Holds key limit s`: the store keeps the key until the limit, in milliseconds.
pub record IsClaimStore {S : Type 0} (claim : Claims S) : Type 1 where
  pub Holds : Bytes → ℕ → S → Type 0
  pub shorter :
      {key : Bytes} {least limit : ℕ} {s : S}
      → least ≤ limit
      → Holds key limit s
      → Holds key least s
  pub claimed :
      (now : ℕ) (key : Bytes) (ttl : ℕ) (s : S)
      → (claim now key ttl s).0 ≡ ok true
      → Holds key (now + ttl * 1000) (claim now key ttl s).1
  pub kept :
      (now : ℕ) (key other : Bytes) (ttl limit : ℕ) (s : S)
      → now < limit
      → Holds key limit s
      → Holds key limit (claim now other ttl s).1
  pub refused :
      (now : ℕ) (key : Bytes) (ttl limit : ℕ) (s : S)
      → now < limit
      → Holds key limit s
      → ¬ ((claim now key ttl s).0 ≡ ok true)

-- The identifier is stored with an expiry that is not before the limit.
abbrev holds : Bytes → ℕ → Seen → Bool
holds mid limit seen = any (λ s. same_bytes s.0 mid && leb limit s.1) seen

same_bytes_refl : (b : Bytes) → same_bytes b b ≡ true
same_bytes_refl [] = refl
same_bytes_refl (x ∷ b) = ground (arith, same_bytes_refl b)

holds-sweep :
    (mid : Bytes) (limit now : ℕ) (seen : Seen)
    → now < limit
    → holds mid limit seen ≡ true
    → holds mid limit (sweep now seen) ≡ true
holds-sweep mid limit now [] before h = h
holds-sweep mid limit now (s ∷ seen) before h =
    ground (arith, before, h, holds-sweep mid limit now seen before)

has-holds :
    (mid : Bytes) (limit : ℕ) (seen : Seen) → holds mid limit seen ≡ true → has mid seen ≡ true
has-holds mid limit [] h = h
has-holds mid limit (s ∷ seen) h = ground (arith, h, has-holds mid limit seen)

holds-append :
    (mid : Bytes) (limit : ℕ) (seen : Seen) (s : Bytes × ℕ)
    → holds mid limit (seen ++ s ∷ [])
      ≡ (holds mid limit seen || (same_bytes s.0 mid && leb limit s.1))
holds-append mid limit [] s = ground arith
holds-append mid limit (r ∷ seen) s = ground (arith, holds-append mid limit seen s)

-- An identifier that is stored past the present stays stored, and is not remembered again.
remember_kept :
    (mid other : Bytes) (limit now ttl : ℕ) (seen : Seen)
    → now < limit
    → holds mid limit seen ≡ true
    → holds mid limit (remember now other ttl seen).1 ≡ true
unfolding remember
remember_kept mid other limit now ttl seen before h =
    let swept = holds-sweep mid limit now seen before h in
    elim (Bool-cases (has other (sweep now seen))) [
      | inl known ↦ rw known swept
      | inr new ↦
          rw (new, holds-append mid limit (sweep now seen) (other, now + ttl * 1000), swept) refl
    ]

remember_seen :
    (mid : Bytes) (limit now ttl : ℕ) (seen : Seen)
    → now < limit
    → holds mid limit seen ≡ true
    → (remember now mid ttl seen).0 ≡ ok false
unfolding remember
remember_seen mid limit now ttl seen before h =
    rw (has-holds mid limit (sweep now seen) (holds-sweep mid limit now seen before h)) refl

remember_new :
    (mid : Bytes) (limit now ttl : ℕ) (seen : Seen)
    → limit ≤ now + ttl * 1000
    → (remember now mid ttl seen).0 ≡ ok true
    → holds mid limit (remember now mid ttl seen).1 ≡ true
unfolding remember
remember_new mid limit now ttl seen within h = elim (Bool-cases (has mid (sweep now seen))) [
  | inl known ↦ absurd (ground (arith, rw known at h))
  | inr new ↦
      rw (new, holds-append mid limit (sweep now seen) (mid, now + ttl * 1000), same_bytes_refl mid)
        (ground (arith, within))
]

holds_shorter :
    (mid : Bytes) (least limit : ℕ) (seen : Seen)
    → least ≤ limit
    → holds mid limit seen ≡ true
    → holds mid least seen ≡ true
holds_shorter mid least limit [] le h = h
holds_shorter mid least limit (s ∷ seen) le h =
    ground (arith, le, h, holds_shorter mid least limit seen le)

pub remember-IsClaimStore : IsClaimStore remember
remember-IsClaimStore = record {
  Holds = λ key limit seen. holds key limit seen ≡ true;
  shorter = λ {key} {least} {limit} {s} le h. holds_shorter key least limit s le h;
  claimed = λ now key ttl s h. remember_new key (now + ttl * 1000) now ttl s (omega arith) h;
  kept = λ now key other ttl limit s before h. remember_kept key other limit now ttl s before h;
  refused = λ now key ttl limit s before h again.
      ground (arith, remember_seen key limit now ttl s before h, again);
}

pub redis_remember-IsClaimStore :
    {S : Type 0} (set : Claims S) (prefix : Bytes)
    → IsClaimStore set
    → IsClaimStore (redis_remember set prefix)
unfolding redis_remember
redis_remember-IsClaimStore set prefix laws = record {
  Holds = λ mid limit s. laws.Holds (replay_key prefix mid) limit s;
  shorter = λ le h. laws.shorter le h;
  claimed = λ now mid ttl s h.
      laws.shorter (omega arith) (laws.claimed now (replay_key prefix mid) (max 1 ttl) s h);
  kept = λ now mid other ttl limit s before h.
      laws.kept now (replay_key prefix mid) (replay_key prefix other) (max 1 ttl) limit s before h;
  refused = λ now mid ttl limit s before h.
      laws.refused now (replay_key prefix mid) (max 1 ttl) limit s before h;
}
