-- ===== src/Nonces.antt =====
-- nonces/nonces.go: the replay cache. A string is its list of bytes, a time a number of nanoseconds;
-- that a time is before `now - 2 * window` is written as a sum, since numbers here stop at zero.
mod Examples
use amber_store.Prelude.{
  ℕ, ◌+◌, ◌*◌, ◌≤◌, ◌≡◌, refl, ◌∙◌, arith, Bool, true, false, not, ◌&&◌, Option, none, some, List,
  [], ◌∷◌, ◌++◌, ltb, if◌then◌else◌, Bytes, bytes_eq, bytes_eq_refl, bytes_eq_iff, All, Bool-cases,
  inl, inr,
}

-- The map holds the time at which a pair was recorded.
pub record Cache : Type 0 where
  pub window : ℕ
  pub seen : List (Bytes × ℕ)

unfoldable pub new : ℕ → Cache
new window = record { window = window; seen = [] }

unfoldable pub is_expired : ℕ → ℕ → ℕ → Bool
is_expired window now t = ltb (t + 2 * window) now

unfoldable pub sweep : ℕ → ℕ → List (Bytes × ℕ) → List (Bytes × ℕ)
unfolding is_expired
sweep window now [] = []
sweep window now ((k, t) ∷ l) =
    let rest = sweep window now l in if is_expired window now t then rest else (k, t) ∷ rest

unfoldable pub time_of : List (Bytes × ℕ) → Bytes → Option ℕ
time_of [] k = none
time_of ((j, t) ∷ l) k = if bytes_eq j k then some t else time_of l k

unfoldable pub record_unless : Cache → Bytes → ℕ → Option ℕ → Cache × Bool
unfolding is_expired
record_unless c k now none = (record c { seen = (k, now) ∷ c.seen }, false)
record_unless c k now (some t) =
    if is_expired c.window now t then (record c { seen = (k, now) ∷ c.seen }, false) else (c, true)

unfoldable pub seen_key : Bytes → Bytes → Bytes
seen_key id nonce = id ++ (0 ∷ nonce)

-- Cache.SeenBefore
unfoldable pub seen_before : Cache → Bytes → Bytes → ℕ → Cache × Bool
unfolding sweep time_of record_unless seen_key
seen_before c id nonce now =
    let swept = record c { seen = sweep c.window now c.seen } in
    record_unless swept (seen_key id nonce) now (time_of swept.seen (seen_key id nonce))

-- A call: the key, the nonce and the time.
abbrev pub Call : Type 0
Call = Bytes × Bytes × ℕ

unfoldable pub after_calls : Cache → List Call → Cache
unfolding seen_before
after_calls c [] = c
after_calls c ((id, nonce, now) ∷ calls) = after_calls (seen_before c id nonce now).0 calls

sweep-time_of :
    (window now t : ℕ) (l : List (Bytes × ℕ)) (k : Bytes)
    → time_of l k ≡ some t
    → now ≤ t + 2 * window
    → time_of (sweep window now l) k ≡ some t
unfolding sweep time_of is_expired
sweep-time_of window now t [] k h le = absurd (cc h)
sweep-time_of window now t ((j, u) ∷ l) k h le = elim (Bool-cases (bytes_eq j k)) [
  | inl same ↦ ground (arith, h, same)
  | inr other ↦
      ground (arith, h, other, sweep-time_of window now t l k (ground (arith, h, other)) le)
]

record_unless-time_of :
    (c : Cache) (j k : Bytes) (now t : ℕ) (o : Option ℕ)
    → time_of c.seen j ≡ o
    → time_of c.seen k ≡ some t
    → now ≤ t + 2 * c.window
    → (time_of (record_unless c j now o).0.seen k ≡ some t)
      × ((record_unless c j now o).0.window ≡ c.window)
unfolding record_unless time_of is_expired
record_unless-time_of c j k now t none e h le = elim (Bool-cases (bytes_eq j k)) [
  | inl same ↦
      let alike : j ≡ k = ground (arith, same, bytes_eq_iff j k) in absurd (cc (e, h, alike))
  | inr other ↦ (ground (arith, h, other), refl)
]
record_unless-time_of c j k now t (some u) e h le = elim (Bool-cases (bytes_eq j k)) [
  | inl same ↦
      let alike : j ≡ k = ground (arith, same, bytes_eq_iff j k) in
      let times : u ≡ t = cc (e, h, alike) in (ground (arith, h, times), ground (arith, times))
  | inr other ↦ (ground (arith, h, other), ground (arith, h))
]

seen_before-time_of :
    (c : Cache) (id nonce k : Bytes) (now t : ℕ)
    → time_of c.seen k ≡ some t
    → now ≤ t + 2 * c.window
    → (time_of (seen_before c id nonce now).0.seen k ≡ some t)
      × ((seen_before c id nonce now).0.window ≡ c.window)
unfolding seen_before
seen_before-time_of c id nonce k now t h le =
    let swept : Cache = record c { seen = sweep c.window now c.seen } in
    record_unless-time_of swept (seen_key id nonce) k now t (time_of swept.seen (seen_key id nonce))
      refl (sweep-time_of c.window now t c.seen k h le) le

after_calls-time_of :
    (calls : List Call) (c : Cache) (k : Bytes) (t later : ℕ)
    → time_of c.seen k ≡ some t
    → All (λ (call : Call). call.2 ≤ later) calls
    → later ≤ t + 2 * c.window
    → (time_of (after_calls c calls).seen k ≡ some t) × ((after_calls c calls).window ≡ c.window)
unfolding after_calls
after_calls-time_of [] c k t later h all le = (h, refl)
after_calls-time_of ((id, nonce, now) ∷ calls) c k t later h all le =
    let (kept, same) = seen_before-time_of c id nonce k now t h (omega (arith, all.0, le)) in
    let (at_end, window) =
      after_calls-time_of calls (seen_before c id nonce now).0 k t later kept all.1
        (omega (arith, le, same)) in
    (at_end, window ∙ same)

recorded :
    (c : Cache) (k : Bytes) (now : ℕ) (o : Option ℕ)
    → (record_unless c k now o).1 ≡ false
    → (time_of (record_unless c k now o).0.seen k ≡ some now)
      × ((record_unless c k now o).0.window ≡ c.window)
unfolding record_unless time_of
recorded c k now none h = (ground (arith, bytes_eq_refl k), refl)
recorded c k now (some t) h = (ground (arith, h, bytes_eq_refl k), ground (arith, h))

known :
    (c : Cache) (k : Bytes) (now t : ℕ) (o : Option ℕ)
    → o ≡ some t
    → now ≤ t + 2 * c.window
    → (record_unless c k now o).1 ≡ true
unfolding record_unless is_expired
known c k now t none e le = absurd (cc e)
known c k now t (some u) e le = let same : u ≡ t = cc e in ground (arith, same, le)

seen_before-known :
    (c : Cache) (id nonce : Bytes) (now t : ℕ)
    → time_of c.seen (seen_key id nonce) ≡ some t
    → now ≤ t + 2 * c.window
    → (seen_before c id nonce now).1 ≡ true
unfolding seen_before
seen_before-known c id nonce now t h le =
    let swept : Cache = record c { seen = sweep c.window now c.seen } in
    known swept (seen_key id nonce) now t (time_of swept.seen (seen_key id nonce))
      (sweep-time_of c.window now t c.seen (seen_key id nonce) h le) le

-- A pair that a call recorded as new is reported as seen before, whatever calls came in between, as
-- long as neither their times nor the time of the second call are later than two windows after it.
pub seen_before-seen_before :
    (c : Cache) (id nonce : Bytes) (first later : ℕ) (calls : List Call)
    → (seen_before c id nonce first).1 ≡ false
    → All (λ (call : Call). call.2 ≤ later) calls
    → later ≤ first + 2 * c.window
    → (seen_before (after_calls (seen_before c id nonce first).0 calls) id nonce later).1 ≡ true
unfolding seen_before
seen_before-seen_before c id nonce first later calls fresh all le =
    let swept : Cache = record c { seen = sweep c.window first c.seen } in
    let (at, same) =
      recorded swept (seen_key id nonce) first (time_of swept.seen (seen_key id nonce)) fresh in
    let (kept, window) =
      after_calls-time_of calls (seen_before c id nonce first).0 (seen_key id nonce) first later at
        all (omega (arith, le, same)) in
    seen_before-known (after_calls (seen_before c id nonce first).0 calls) id nonce later first kept
      (omega (arith, le, same, window))
